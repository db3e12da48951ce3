-- ===== src/Gateway/AppName.antt =====
-- The application names that SPAWN_APP carries (`is_valid_app_name` and `parse_spawn_app_name` in
-- src/gateway/gateway.cpp, the request of src/client/client.cpp).
use protocol_design.Prelude.{
  ℕ, ◌+◌, ◌≤◌, ◌/◌, ◌^◌, ◌<◌, ◌≡◌, ◌↔◌, ◌⊎◌, inl, inr, refl, sym, ap, ◌∙◌, List, [], ◌∷◌, ◌++◌,
  true, false, not, ◌||◌, none, some, length, take, drop, ltb, ◌==◌, if◌then◌else◌, arith, All,
  Bool-cases, length-append, take_all, drop-append_self, u32,
}
use protocol_design.Protocol.{Header}
use protocol_design.Protocol.Wire.{join4}
use protocol_design.Prelude.Bits.{and_byte}
use protocol_design.Gateway.Packets.{
  isalnum, has_dot_dot, valid_chars, is_valid_app_name, parse_spawn_app_name, read_be32,
}
use protocol_design.Client.Requests.{pack_spawn_app_body, write_be32}

abbrev pub IsNameChar : ℕ → Type 0
IsNameChar c = (isalnum c ≡ true) ⊎ ((c ≡ b'_') ⊎ ((c ≡ b'-') ⊎ (c ≡ b'.')))

-- No two dots in a row.
abbrev pub NoDotDot : List ℕ → Type 0
NoDotDot [] = Unit {0}
NoDotDot (a ∷ []) = Unit {0}
NoDotDot (a ∷ b ∷ name) = ¬ ((a ≡ b'.') × (b ≡ b'.')) × NoDotDot (b ∷ name)

pub record IsAppName (name : List ℕ) : Type 0 where
  pub nonempty : 0 < length name
  pub short : length name ≤ 255
  pub no_parent : NoDotDot name
  pub chars : All IsNameChar name

name_char :
    (c : ℕ) → (not (isalnum c || c == b'_' || c == b'-' || c == b'.') ≡ false) ↔ IsNameChar c
name_char c = ground arith

separator : (c : ℕ) → IsNameChar c → (c == b'/' || c == b'\\') ≡ false
separator c h = ground arith

valid_chars-All : (name : List ℕ) → valid_chars name ≡ true → All IsNameChar name
unfolding valid_chars
valid_chars-All [] h = tt
valid_chars-All (c ∷ name) h =
    let char : not (isalnum c || c == b'_' || c == b'-' || c == b'.') ≡ false = ground arith in
    let rest : valid_chars name ≡ true = ground arith in
    ((name_char c).0 char, valid_chars-All name rest)

All-valid_chars : (name : List ℕ) → All IsNameChar name → valid_chars name ≡ true
unfolding valid_chars
All-valid_chars [] h = refl
All-valid_chars (c ∷ name) h = rw (separator c h.0, (name_char c).1 h.0) (All-valid_chars name h.1)

has_dot_dot-NoDotDot : (name : List ℕ) → (has_dot_dot name ≡ false) ↔ NoDotDot name
unfolding has_dot_dot
has_dot_dot-NoDotDot [] = (λ _. tt, λ _. refl)
has_dot_dot-NoDotDot (a ∷ []) = (λ _. tt, λ _. refl)
has_dot_dot-NoDotDot (a ∷ b ∷ name) =
    let rec = has_dot_dot-NoDotDot (b ∷ name) in
    (λ h. (ground arith, rec.0 (ground arith)), λ h. ground (arith, rec.1 h.1))

-- A name is accepted exactly when it has 1 to 255 characters, all of them letters, digits, `_`, `-`
-- or `.`, and no two dots in a row.
pub is_valid_app_name_iff : (name : List ℕ) → (is_valid_app_name name ≡ true) ↔ IsAppName name
unfolding is_valid_app_name
is_valid_app_name_iff name = (
  λ h. record {
    nonempty = ground arith;
    short = ground arith;
    no_parent = (has_dot_dot-NoDotDot name).0 (ground arith);
    chars = valid_chars-All name (ground arith);
  },
  λ v. ground (arith, (has_dot_dot-NoDotDot name).1 v.no_parent, All-valid_chars name v.chars),
)

write_read : (v : ℕ) (rest : List ℕ) → v < 2 ^ 32 → read_be32 (write_be32 v ++ rest) 0 ≡ some v
unfolding read_be32 write_be32
write_read v rest fits = elim (Bool-cases (ltb (length (write_be32 v ++ rest)) 4)) [
  | inl short ↦ absurd (ground arith)
  | inr enough ↦ rw enough (
      ap some (
        join4 _ _ _ _ (omega arith) (omega arith) (omega arith) (omega arith)
        ∙ rw (and_byte (v / 2 ^ 24), and_byte (v / 2 ^ 16), and_byte (v / 2 ^ 8), and_byte v)
            (omega arith)))
]

-- A length that does not fit the request, and what follows it in `parse_spawn_app_name`.
parse_after :
    (h : Header) (body : List ℕ) (len : ℕ)
    → read_be32 body 0 ≡ some len
    → parse_spawn_app_name (record { header = h; body = body }) ≡ (
        if len == 0 || ltb 255 len || not (length body == 4 + len)
        then none
        else if not (is_valid_app_name (take len (drop 4 body)))
        then none
        else some (take len (drop 4 body)))
unfolding parse_spawn_app_name
parse_after h body len e = rw (e, parse_spawn_app_name) refl

length-write_be32 : (v : ℕ) → length (write_be32 v) ≡ 4
unfolding write_be32
length-write_be32 v = refl

refused_length :
    (name : List ℕ)
    → (length name == 0 || ltb 255 (length name)) ≡ true
    → is_valid_app_name name ≡ false
unfolding is_valid_app_name
refused_length name e = rw e

-- The gateway reads from the SPAWN_APP of the client the name, shorter than 2 ^ 32, that the client
-- put in, if it is a valid name, and refuses the packet if it is not.
pub parse-pack_spawn_app_body :
    (h : Header) (name : List ℕ)
    → length name < 2 ^ 32
    → parse_spawn_app_name (record { header = h; body = pack_spawn_app_body name })
      ≡ (if is_valid_app_name name then some name else none)
unfolding pack_spawn_app_body
parse-pack_spawn_app_body h name fits =
    let n = length name in
    let w : u32 n ≡ n = omega arith in
    rw
      (
        w,
        parse_after h (write_be32 n ++ name) n (write_read n name fits),
        drop-append_self 4 (write_be32 n) name (sym (length-write_be32 n)),
        take_all n name (omega arith),
        length-append (write_be32 n) name,
        length-write_be32 n,
      )
      (ground (arith, refused_length name))
