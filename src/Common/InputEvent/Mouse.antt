-- ===== src/Common/InputEvent/Mouse.antt =====
-- The mouse bodies of src/common/input_event.cpp and their size.
use protocol_design.Prelude.{
  ℕ, ◌≡◌, inl, inr, refl, List, ◌∷◌, Bool, true, false, none, if◌then◌else◌, ◌==◌, length, arith,
  Bool-cases,
}
use protocol_design.Common.InputEvent.{
  GkcConstants, InputEventType, out_of_bounds, rejected, write_at, is_mouse_event,
  pack_mouse_input_event, parse_mouse, parse_input_event_body, read_be32_at, read_be64_at,
}

-- Packing any mouse event writes past the end of the 13 bytes that it allocates, on every host.
pub pack_mouse_input_event-overruns :
    (little : Bool) (event_type x y timestamp_us : ℕ)
    → pack_mouse_input_event little event_type x y timestamp_us ≡ none
unfolding pack_mouse_input_event write_at
pack_mouse_input_event-overruns true t x y ts = refl
pack_mouse_input_event-overruns false t x y ts = refl

timestamp-out_of_bounds :
    (little : Bool) (gkc : GkcConstants) (type : InputEventType) (body : List ℕ)
    → length body ≡ 13
    → parse_mouse little gkc type body ≡ out_of_bounds
unfolding parse_mouse read_be32_at read_be64_at
timestamp-out_of_bounds little gkc type body e = rw e refl

-- A body whose type is that of a mouse event is rejected unless it has 13 bytes, and read past its
-- end if it has.
pub parse_input_event_body-mouse :
    (little : Bool) (gkc : GkcConstants) (raw : ℕ) (rest : List ℕ)
    → is_mouse_event raw ≡ true
    → parse_input_event_body little gkc (raw ∷ rest)
      ≡ (if length (raw ∷ rest) == 13 then out_of_bounds else rejected)
unfolding parse_input_event_body
parse_input_event_body-mouse little gkc raw rest m = elim (Bool-cases (length (raw ∷ rest) == 13)) [
  | inl e ↦ rw (m, e, timestamp-out_of_bounds little gkc raw (raw ∷ rest) (ground (arith, e))) refl
  | inr n ↦ rw (m, n) refl
]
