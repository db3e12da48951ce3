-- ===== src/Common/InputEvent.antt =====
-- src/common/input_event.h and input_event.cpp: the bodies of INPUT_EVENT. An `int32_t` is its 32-bit
-- pattern, so that the casts to and from `uint32_t` change nothing. A write or a read past the end of
-- a buffer is `none` or `out_of_bounds`: what the program does then is undefined.
pub mod Mouse
pub mod Keyboard
use protocol_design.Prelude.{
  ℕ, ◌+◌, ◌*◌, ◌^◌, List, [], ◌∷◌, ◌++◌, Bool, true, false, not, ◌&&◌, ◌||◌, Option, none, some,
  if◌then◌else◌, ◌==◌, leb, ltb, length, take, drop, get_or, replicate, u8,
}
use protocol_design.Common.ByteOrder.{be16, be32, be64, native16, native32, native64}

abbrev pub InputEventType : Type 0
InputEventType = ℕ

abbrev pub mouse_move : InputEventType
mouse_move = 0x01

abbrev pub mouse_left_down : InputEventType
mouse_left_down = 0x02

abbrev pub mouse_left_up : InputEventType
mouse_left_up = 0x03

abbrev pub mouse_right_down : InputEventType
mouse_right_down = 0x04

abbrev pub mouse_right_up : InputEventType
mouse_right_up = 0x05

abbrev pub mouse_scroll : InputEventType
mouse_scroll = 0x06

abbrev pub key_down : InputEventType
key_down = 0x10

abbrev pub key_up : InputEventType
key_up = 0x11

abbrev pub mouse_body_size : ℕ
mouse_body_size = 13

abbrev pub keyboard_body_size : ℕ
keyboard_body_size = 11

-- The constants of the GKC library that the mapping uses.
pub record GkcConstants : Type 0 where
  pub event_move : ℕ
  pub event_down : ℕ
  pub event_up : ℕ
  pub event_wheel : ℕ
  pub button_none : ℕ
  pub button_left : ℕ
  pub button_right : ℕ
  pub state_left : ℕ
  pub state_right : ℕ

-- The fields of the GKC messages that the mapping sets.
pub record UiMessageMouse : Type 0 where
  pub x : ℕ
  pub y : ℕ
  pub event : ℕ
  pub button : ℕ
  pub state : ℕ
  pub value : ℕ

abbrev pub no_mouse : UiMessageMouse
no_mouse = record { x = 0; y = 0; event = 0; button = 0; state = 0; value = 0 }

pub record UiMessageKeyboard : Type 0 where
  pub key : ℕ
  pub state : ℕ
  pub value : ℕ
  pub full_char : ℕ
  pub down : ℕ

abbrev pub no_keyboard : UiMessageKeyboard
no_keyboard = record { key = 0; state = 0; value = 0; full_char = 0; down = 0 }

pub data Kind : Type 0 where
  mouse_kind keyboard_kind : Kind

pub record ParsedInputEvent : Type 0 where
  pub kind : Kind
  pub mouse : UiMessageMouse
  pub keyboard : UiMessageKeyboard
  pub event_type : InputEventType
  pub timestamp_us : ℕ

-- What a call of `parse_input_event_body` comes to.
pub data Parsed : Type 0 where
  out_of_bounds rejected : Parsed
  parsed : ParsedInputEvent → Parsed

-- memcpy(buf + at, bytes, length bytes)
unfoldable pub write_at : List ℕ → ℕ → List ℕ → Option (List ℕ)
write_at buf at bytes =
    if leb (at + length bytes) (length buf)
    then some (take at buf ++ (bytes ++ drop (at + length bytes) buf))
    else none

abbrev pub and_then {ℓ κ} : {A : Type ℓ} {B : Type κ} → Option A → (A → Option B) → Option B
and_then none f = none
and_then (some a) f = f a

unfoldable pub is_mouse_event : ℕ → Bool
is_mouse_event raw = leb 0x01 raw && leb raw 0x06

unfoldable pub is_keyboard_event : ℕ → Bool
is_keyboard_event raw = raw == 0x10 || raw == 0x11

module _ (gkc : GkcConstants) where
  unfoldable pub fill_mouse_message : InputEventType → ℕ → ℕ → Option UiMessageMouse
  fill_mouse_message type x y =
      let m = record no_mouse { x = x; y = y } in
      if type == mouse_move
      then some (record m { event = gkc.event_move; button = gkc.button_none })
      else if type == mouse_left_down
      then some
          (record m { event = gkc.event_down; button = gkc.button_left; state = gkc.state_left })
      else if type == mouse_left_up
      then some (record m { event = gkc.event_up; button = gkc.button_left })
      else if type == mouse_right_down
      then some
          (record m { event = gkc.event_down; button = gkc.button_right; state = gkc.state_right })
      else if type == mouse_right_up
      then some (record m { event = gkc.event_up; button = gkc.button_right })
      else if type == mouse_scroll
      then some (record m { event = gkc.event_wheel; button = gkc.button_none; value = 0 })
      else none

unfoldable pub fill_keyboard_message : InputEventType → ℕ → Option UiMessageKeyboard
fill_keyboard_message type key_code =
    let kb = record no_keyboard { key = u8 key_code } in
    if ltb 0xff key_code
    then none
    else if type == key_down
    then some (record kb { down = 1 })
    else if type == key_up
    then some (record kb { down = 0 })
    else none

-- `little` is the byte order of the host.
module _ (little : Bool) where
  unfoldable pub pack_mouse_input_event : InputEventType → ℕ → ℕ → ℕ → Option (List ℕ)
  pack_mouse_input_event event_type x y timestamp_us =
      and_then (write_at (replicate mouse_body_size 0) 0 (u8 event_type ∷ [])) (λ out₁.
        and_then (write_at out₁ 1 (native32 little (be32 little x))) (λ out₂.
          and_then (write_at out₂ 5 (native32 little (be32 little y)))
            (λ out₃. write_at out₃ 9 (native64 little (be64 little timestamp_us)))))

  unfoldable pub pack_keyboard_input_event : InputEventType → ℕ → ℕ → Option (List ℕ)
  pack_keyboard_input_event event_type key_code timestamp_us =
      and_then (write_at (replicate keyboard_body_size 0) 0 (u8 event_type ∷ [])) (λ out₁.
        and_then (write_at out₁ 1 (native16 little (be16 little key_code)))
          (λ out₂. write_at out₂ 3 (native64 little (be64 little timestamp_us))))

  -- The integers that `memcpy` takes from the host's memory.
  abbrev pub value16 : List ℕ → ℕ → ℕ
  value16 buf at =
      let b = λ (i : ℕ). get_or buf (at + i) 0 in
      if little then b 0 + b 1 * 2 ^ 8 else b 0 * 2 ^ 8 + b 1

  abbrev pub value32 : List ℕ → ℕ → ℕ
  value32 buf at =
      let b = λ (i : ℕ). get_or buf (at + i) 0 in
      if little
      then b 0 + b 1 * 2 ^ 8 + b 2 * 2 ^ 16 + b 3 * 2 ^ 24
      else b 0 * 2 ^ 24 + b 1 * 2 ^ 16 + b 2 * 2 ^ 8 + b 3

  abbrev pub value64 : List ℕ → ℕ → ℕ
  value64 buf at =
      let b = λ (i : ℕ). get_or buf (at + i) 0 in
      if little
      then b 0
        + b 1 * 2 ^ 8
        + b 2 * 2 ^ 16
        + b 3 * 2 ^ 24
        + b 4 * 2 ^ 32
        + b 5 * 2 ^ 40
        + b 6 * 2 ^ 48
        + b 7 * 2 ^ 56
      else b 0 * 2 ^ 56
        + b 1 * 2 ^ 48
        + b 2 * 2 ^ 40
        + b 3 * 2 ^ 32
        + b 4 * 2 ^ 24
        + b 5 * 2 ^ 16
        + b 6 * 2 ^ 8
        + b 7

  unfoldable pub read_be16_at : List ℕ → ℕ → Option ℕ
  read_be16_at buf at =
      if leb (at + 2) (length buf) then some (be16 little (value16 buf at)) else none

  unfoldable pub read_be32_at : List ℕ → ℕ → Option ℕ
  read_be32_at buf at =
      if leb (at + 4) (length buf) then some (be32 little (value32 buf at)) else none

  unfoldable pub read_be64_at : List ℕ → ℕ → Option ℕ
  read_be64_at buf at =
      if leb (at + 8) (length buf) then some (be64 little (value64 buf at)) else none

  -- A read past the end of the body.
  abbrev pub reading : Option ℕ → (ℕ → Parsed) → Parsed
  reading none f = out_of_bounds
  reading (some v) f = f v

  -- The branches of `parse_input_event_body` for a body of the right size.
  unfoldable pub parse_mouse : GkcConstants → InputEventType → List ℕ → Parsed
  parse_mouse gkc type body = reading (read_be32_at body 1) (λ x.
      reading (read_be32_at body 5) (λ y. reading (read_be64_at body 9) (λ ts.
        elim (fill_mouse_message gkc type x y) [
          | none ↦ rejected
          | some m ↦ parsed (record {
            kind = mouse_kind;
            mouse = m;
            keyboard = no_keyboard;
            event_type = type;
            timestamp_us = ts;
          })
        ])))

  unfoldable pub parse_keyboard : InputEventType → List ℕ → Parsed
  parse_keyboard type body = reading (read_be16_at body 1) (λ key_code.
      reading (read_be64_at body 3) (λ ts. elim (fill_keyboard_message type key_code) [
        | none ↦ rejected
        | some kb ↦ parsed (record {
          kind = keyboard_kind;
          mouse = no_mouse;
          keyboard = kb;
          event_type = type;
          timestamp_us = ts;
        })
      ]))

  -- A null pointer is an empty body.
  unfoldable pub parse_input_event_body : GkcConstants → List ℕ → Parsed
  unfolding parse_mouse parse_keyboard
  parse_input_event_body gkc [] = rejected
  parse_input_event_body gkc (raw ∷ rest) =
      if is_mouse_event raw
      then (if not (length (raw ∷ rest) == mouse_body_size)
          then rejected
          else parse_mouse gkc raw (raw ∷ rest))
      else if is_keyboard_event raw
      then (if not (length (raw ∷ rest) == keyboard_body_size)
          then rejected
          else parse_keyboard raw (raw ∷ rest))
      else rejected
