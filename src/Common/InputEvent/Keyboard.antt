-- ===== src/Common/InputEvent/Keyboard.antt =====
-- The keyboard bodies of src/common/input_event.cpp, from one host to another.
use protocol_design.Prelude.{
  ℕ, ◌^◌, ◌<◌, ◌≡◌, inl, inr, refl, List, [], ◌∷◌, Bool, true, false, some, if◌then◌else◌, ◌==◌,
  ltb, arith, Bool-cases, u8,
}
use protocol_design.Common.ByteOrder.{digit}
use protocol_design.Common.ByteOrder.Swaps.{native16-be16, native64-be64, be16-value, be64-value}
use protocol_design.Common.InputEvent.{
  GkcConstants, rejected, parsed, keyboard_kind, no_keyboard, no_mouse, write_at, is_mouse_event,
  is_keyboard_event, fill_keyboard_message, pack_keyboard_input_event, parse_keyboard,
  parse_input_event_body, read_be16_at, read_be64_at, key_down, key_up,
}

abbrev pub packed : ℕ → ℕ → ℕ → List ℕ
packed type key ts =
    type
    ∷ digit 1 key
    ∷ digit 0 key
    ∷ digit 7 ts
    ∷ digit 6 ts
    ∷ digit 5 ts
    ∷ digit 4 ts
    ∷ digit 3 ts
    ∷ digit 2 ts
    ∷ digit 1 ts
    ∷ digit 0 ts
    ∷ []

keyboard_event-byte :
    (type : ℕ) → is_keyboard_event type ≡ true → (u8 type ≡ type) × (is_mouse_event type ≡ false)
unfolding is_keyboard_event is_mouse_event
keyboard_event-byte type v = (ground (arith, v), ground (arith, v))

pack_keyboard-bytes :
    (little : Bool) (type key ts : ℕ)
    → u8 type ≡ type
    → key < 2 ^ 16
    → ts < 2 ^ 64
    → pack_keyboard_input_event little type key ts ≡ some (packed type key ts)
unfolding pack_keyboard_input_event write_at
pack_keyboard-bytes little type key ts byte hk ht =
    rw (byte, native16-be16 little key hk, native64-be64 little ts ht) refl

parse_keyboard-packed :
    (little : Bool) (type key ts : ℕ)
    → is_keyboard_event type ≡ true
    → key < 2 ^ 16
    → ts < 2 ^ 64
    → parse_keyboard little type (packed type key ts) ≡ (
        if ltb 0xff key
        then rejected
        else parsed (record {
          kind = keyboard_kind;
          mouse = no_mouse;
          keyboard = record no_keyboard { key = key; down = if type == key_down then 1 else 0 };
          event_type = type;
          timestamp_us = ts;
        }))
unfolding parse_keyboard read_be16_at read_be64_at fill_keyboard_message is_keyboard_event
parse_keyboard-packed little type key ts v hk ht =
    rw (be16-value little key hk, be64-value little ts ht)
      (elim (Bool-cases (ltb 0xff key)) [
        | inl large ↦ rw large refl
        | inr small ↦
            let same : u8 key ≡ key = ground (arith, small) in
            elim (Bool-cases (type == key_down)) [
              | inl down ↦ rw (small, down, same) refl
              | inr other ↦
                  let up : (type == key_up) ≡ true = ground (arith, v, other) in
                  rw (small, other, up, same) refl
            ]
      ])

-- A keyboard event that one host packs, with a key code of 16 bits and a timestamp of 64, is parsed
-- by a host of either byte order as the same event, unless the key code does not fit a byte: then
-- it is rejected.
pub parse-pack_keyboard_input_event :
    (little_from little_to : Bool) (gkc : GkcConstants) (type key ts : ℕ)
    → is_keyboard_event type ≡ true
    → key < 2 ^ 16
    → ts < 2 ^ 64
    → (pack_keyboard_input_event little_from type key ts ≡ some (packed type key ts))
      × (parse_input_event_body little_to gkc (packed type key ts) ≡ (
          if ltb 0xff key
          then rejected
          else parsed (record {
            kind = keyboard_kind;
            mouse = no_mouse;
            keyboard = record no_keyboard { key = key; down = if type == key_down then 1 else 0 };
            event_type = type;
            timestamp_us = ts;
          })))
unfolding parse_input_event_body
parse-pack_keyboard_input_event from to gkc type key ts v hk ht =
    let (byte, not_mouse) = keyboard_event-byte type v in
    (
      pack_keyboard-bytes from type key ts byte hk ht,
      rw (not_mouse, v) (parse_keyboard-packed to type key ts v hk ht),
    )
