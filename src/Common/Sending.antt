-- ===== src/Common/Sending.antt =====
-- The loop that sends a buffer over a socket: `send_all` of src/apphost/apphost.cpp, and the same loop in
-- ClientRuntime::send_packet of src/client/client.cpp. What the calls of `send` answer is a list; when
-- it is used up, `send` fails.
use protocol_design.Prelude.{
  ℕ, zero, suc, ◌≤◌, ◌≡◌, ◌≢◌, refl, ap, ◌∙◌, List, [], ◌∷◌, ◌++◌, Bool, true, false, length, take,
  drop, arith, take-append-drop, length-drop, append_assoc, All,
}
use protocol_design.Prelude.Int.{ℤ, pos, negsuc, is_positive}

-- What the loop returns, the bytes that `send` took, and the answers that are left.
pub record Sent : Type 0 where
  pub all_sent : Bool
  pub bytes : List ℕ
  pub answers : List ℤ

-- `n` of the bytes went out, and then what `rest` says.
abbrev pub then_sent : List ℕ → Sent → Sent
then_sent out rest = record rest { bytes = out ++ rest.bytes }

unfoldable pub send_all : List ℤ → List ℕ → Sent
send_all answers [] = record { all_sent = true; bytes = []; answers = answers }
send_all [] (b ∷ bs) = record { all_sent = false; bytes = []; answers = [] }
send_all (negsuc n ∷ answers) (b ∷ bs) = record { all_sent = false; bytes = []; answers = answers }
send_all (pos zero ∷ answers) (b ∷ bs) = record { all_sent = false; bytes = []; answers = answers }
send_all (pos (suc n) ∷ answers) (b ∷ bs) =
    then_sent (take (suc n) (b ∷ bs)) (send_all answers (drop (suc n) (b ∷ bs)))

-- An answer that says that bytes were taken.
abbrev pub IsProgress : ℤ → Type 0
IsProgress n = is_positive n ≡ true

-- The bytes that went out are a front part of the buffer; it is all of it if the loop returns true, and
-- it is not if the loop returns false.
pub record IsFront (r : Sent) (bs : List ℕ) : Type 0 where
  pub unsent : List ℕ
  pub split : r.bytes ++ unsent ≡ bs
  pub whole : r.all_sent ≡ true → unsent ≡ []
  pub part : r.all_sent ≡ false → unsent ≢ []

-- Whatever `send` answers, the bytes that it takes are a front part of the buffer: all of it if the loop
-- returns true, and less if it returns false.
pub send_all-IsFront : (answers : List ℤ) (bs : List ℕ) → IsFront (send_all answers bs) bs
unfolding send_all
send_all-IsFront answers [] = record {
  unsent = [];
  split = refl;
  whole = λ _. refl;
  part = λ e. ground (arith, e);
}
send_all-IsFront [] (b ∷ bs) = record {
  unsent = b ∷ bs;
  split = refl;
  whole = λ e. ground (arith, e);
  part = λ _. λ e. ground (arith, e);
}
send_all-IsFront (negsuc n ∷ answers) (b ∷ bs) = record {
  unsent = b ∷ bs;
  split = refl;
  whole = λ e. ground (arith, e);
  part = λ _. λ e. ground (arith, e);
}
send_all-IsFront (pos zero ∷ answers) (b ∷ bs) = record {
  unsent = b ∷ bs;
  split = refl;
  whole = λ e. ground (arith, e);
  part = λ _. λ e. ground (arith, e);
}
send_all-IsFront (pos (suc n) ∷ answers) (b ∷ bs) =
    let later = send_all-IsFront answers (drop (suc n) (b ∷ bs)) in
    let out = take (suc n) (b ∷ bs) in
    record {
      unsent = later.unsent;
      split =
          append_assoc out (send_all answers (drop (suc n) (b ∷ bs))).bytes later.unsent
          ∙ ap (λ z. out ++ z) later.split
          ∙ take-append-drop (suc n) (b ∷ bs);
      whole = later.whole;
      part = later.part;
    }

-- If `send` makes progress as often as there are bytes, the loop ends, with everything sent.
pub send_all_ends :
    (answers : List ℤ) (bs : List ℕ)
    → length bs ≤ length answers
    → All IsProgress answers
    → ((send_all answers bs).all_sent ≡ true) × ((send_all answers bs).bytes ≡ bs)
unfolding send_all
send_all_ends answers [] h v = (refl, refl)
send_all_ends [] (b ∷ bs) h v = absurd (omega arith)
send_all_ends (negsuc n ∷ answers) (b ∷ bs) h v = ground (arith, v.0)
send_all_ends (pos zero ∷ answers) (b ∷ bs) h v = ground (arith, v.0)
send_all_ends (pos (suc n) ∷ answers) (b ∷ bs) h v =
    let later =
      send_all_ends answers (drop (suc n) (b ∷ bs)) (omega (arith, length-drop n bs)) v.1 in
    (later.0, ap (λ z. take (suc n) (b ∷ bs) ++ z) later.1 ∙ take-append-drop (suc n) (b ∷ bs))
