-- ===== src/Response/BodyReader.antt =====
-- Reading a body through ReadCloseCounter.
use jtrpc.Common.{
  ℕ, zero, suc, ◌+◌, ◌-◌, ◌≤◌, ◌≡◌, ◌↔◌, ◌⊎◌, inl, inr, refl, ap, some, [], ◌∷◌, ◌++◌, Bytes,
  length, take, drop, length-take, arith,
}
use native.Mathlib.Nat.{sub-zero, suc-sub-suc}
use jtrpc.Io.{eof}
use jtrpc.Response.{Counter, counter_bytes, read_counter}

-- Reading `p` bytes of the first `n`, in terms of how many there were.
take_next :
    (p n : ℕ) (xs : Bytes)
    → p ≤ n
    → take p xs ++ take (n - length (take p xs)) (drop (length (take p xs)) xs) ≡ take n xs
take_next zero n xs h = rw (sub-zero n) refl
take_next (suc p) zero xs h = absurd (omega arith)
take_next (suc p) (suc n) [] h = rw (sub-zero (suc n)) refl
take_next (suc p) (suc n) (x ∷ xs) h =
    ap (◌∷◌ x) (rw (suc-sub-suc n (length (take p xs))) (take_next p n xs (omega arith)))

take_none : (n : ℕ) (xs : Bytes) → (take n xs ≡ []) ↔ ((n ≡ 0) ⊎ (length xs ≡ 0))
take_none zero xs = (λ _. inl refl, λ _. refl)
take_none (suc n) [] = (λ _. inr refl, λ _. refl)
take_none (suc n) (x ∷ xs) = ground arith

-- What a `Read` with a buffer of `p_len` bytes is to do.
pub record ReadsOn (c : Counter) (p_len : ℕ) : Type 0 where
  pub splits : (read_counter c p_len).1 ++ counter_bytes (read_counter c p_len).0 ≡ counter_bytes c
  pub bounded : length (read_counter c p_len).1 ≤ p_len
  pub counts : (read_counter c p_len).0.len + length (read_counter c p_len).1 ≡ c.len
  pub ends : ((read_counter c p_len).2 ≡ some eof) ↔ (counter_bytes c ≡ [])

-- One `Read` gives the next bytes of the body and no more than the buffer takes, counts them off
-- `Len`, and answers io.EOF exactly when the body has no bytes left.
pub read_counter-ReadsOn : (c : Counter) (p_len : ℕ) → ReadsOn c p_len
unfolding read_counter
read_counter-ReadsOn c p_len = record {
  splits = ground (arith, take_next c.len c.len c.src, take_next p_len c.len c.src);
  bounded = ground (arith, length-take c.len c.src, length-take p_len c.src);
  counts = ground (arith, length-take c.len c.src, length-take p_len c.src);
  ends = ground (arith, take_none c.len c.src);
}
