-- ===== src/Io/Laws.antt =====
-- What reading and writing do.
use jtrpc.Common.{
  ℕ, zero, suc, ◌+◌, ◌-◌, ◌≤◌, ◌<◌, ◌≡◌, refl, sym, ap, ◌∙◌, Option, none, some, [], ◌∷◌, ◌++◌,
  append-nil, append_assoc, Option-cases, Bool-cases, ltb, ltb→lt, ltb→le, ◌⊎◌, ◌≢◌, inl, inr,
  Bytes, length, length-append, take, drop, take-append_at, drop-append_at, take_all, arith,
}
use native.Mathlib.Nat.{zero-add, suc-add}
use jtrpc.Common.Int.{ℤ, pos, count_of}
use jtrpc.Io.{Error, Written, Sink, read_full, copy_n, write, short_copy, copy_to, copy_after}

pub read_full-append :
    (n : ℕ) (b rest : Bytes)
    → n ≡ length b
    → read_full n (b ++ rest) ≡ record { got = b; rest = rest; failure = none }
unfolding read_full
read_full-append n [] [] e = ground arith
read_full-append n [] (x ∷ rest) e = rw e (ground arith)
read_full-append n (x ∷ b) rest e = ground (
  arith,
  length-append (x ∷ b) rest,
  take-append_at n (x ∷ b) rest e,
  drop-append_at n (x ∷ b) rest e,
)

pub copy_n-append :
    (n : ℤ) (b rest : Bytes)
    → count_of n ≡ length b
    → copy_n n (b ++ rest) ≡ record { got = b; rest = rest; failure = none }
unfolding copy_n
copy_n-append n b rest e = ground (
  arith,
  length-append b rest,
  take-append_at (count_of n) b rest e,
  drop-append_at (count_of n) b rest e,
)

-- A write with room for all of it.
pub write_fits :
    (s : Sink) (b : Bytes)
    → length b ≤ s.room
    → write s b ≡ record {
      sink = record { out = s.out ++ b; room = s.room - length b };
      n = length b;
      failure = none;
    }
unfolding write
write_fits s b h = ground arith

pub copy_to_fits :
    (s : Sink) (b : Bytes)
    → length b ≤ s.room
    → copy_to s b (pos (length b)) ≡ record {
      written = record {
        sink = record { out = s.out ++ b; room = s.room - length b };
        n = length b;
        failure = none;
      };
      left = [];
    }
unfolding copy_to write
copy_to_fits s b h = ground (arith, take_all (length b) b (omega arith), drop_all b)
  where
    drop_all : (c : Bytes) → drop (length c) c ≡ []
    drop_all c = ap (drop (length c)) (sym (append-nil c)) ∙ drop-append_at (length c) c [] refl

take_part : (n : ℕ) (xs ys : Bytes) → n ≤ length xs → take n (xs ++ ys) ≡ take n xs
take_part zero xs ys h = refl
take_part (suc n) [] ys h = absurd (omega arith)
take_part (suc n) (x ∷ xs) ys h = ap (◌∷◌ x) (take_part n xs ys (omega arith))

take_past : (k : ℕ) (xs ys : Bytes) → take (length xs + k) (xs ++ ys) ≡ xs ++ take k ys
take_past k [] ys = rw zero-add refl
take_past k (x ∷ xs) ys = rw (suc-add (length xs) k) (ap (◌∷◌ x) (take_past k xs ys))

-- `w` is what became of the bytes `b` that were to be written to `s`: a prefix of as many bytes as
-- `w` says was written, and all of them if there is no error.
pub record WritesPrefix (s : Sink) (b : Bytes) (w : Written) : Type 0 where
  pub prefix : w.sink.out ≡ s.out ++ take w.n b
  pub bounded : w.n ≤ length b
  pub whole : w.failure ≡ none → w.n ≡ length b
  pub left : w.failure ≡ none → w.n + w.sink.room ≡ s.room
  pub fits : length b ≤ s.room → w.failure ≡ none
  pub cut : ¬ (w.failure ≡ none) → w.n < length b

pub write-WritesPrefix : (s : Sink) (b : Bytes) → WritesPrefix s b (write s b)
unfolding write
write-WritesPrefix s b = record {
  prefix = ground (arith, take_all (length b) b (omega arith));
  bounded = ground arith;
  whole = ground arith;
  left = ground arith;
  fits = ground arith;
  cut = ground arith;
}

-- One write behind another.
pub WritesPrefix-append :
    {s : Sink} {a b : Bytes} {v w : Written} {n : ℕ}
    → WritesPrefix s a v
    → v.failure ≡ none
    → WritesPrefix v.sink b w
    → n ≡ v.n + w.n
    → WritesPrefix s (a ++ b) (record w { n = n })
WritesPrefix-append {s} {a} {b} {v} {w} {n} f ok g e = record {
  prefix =
      g.prefix
      ∙ ap (λ (t : Bytes). t ++ take w.n b)
          (f.prefix ∙ ap (◌++◌ s.out) (take_all v.n a (omega (arith, f.whole ok))))
      ∙ append_assoc s.out a (take w.n b)
      ∙ ap (◌++◌ s.out)
          (sym (take_past w.n a b) ∙ ap (λ (k : ℕ). take k (a ++ b)) (omega (arith, f.whole ok)));
  bounded = omega (arith, length-append a b, f.whole ok, g.bounded);
  whole = λ h. omega (arith, length-append a b, f.whole ok, g.whole h);
  left = λ h. omega (arith, f.left ok, g.left h);
  fits = λ h. g.fits (omega (arith, length-append a b, f.left ok, f.whole ok));
  cut = λ h. omega (arith, length-append a b, f.whole ok, g.cut h);
}

-- A write that failed is also what became of a longer slice.
pub WritesPrefix-longer :
    {s : Sink} {a : Bytes} {w : Written} (b : Bytes)
    → WritesPrefix s a w
    → ¬ (w.failure ≡ none)
    → WritesPrefix s (a ++ b) w
WritesPrefix-longer {s} {a} {w} b f bad = record {
  prefix = f.prefix ∙ ap (◌++◌ s.out) (sym (take_part w.n a b f.bounded));
  bounded = omega (arith, length-append a b, f.bounded);
  whole = λ h. absurd (bad h);
  left = λ h. absurd (bad h);
  fits = λ h. absurd (bad (f.fits (omega (arith, length-append a b))));
  cut = λ h. omega (arith, length-append a b, f.cut h);
}

-- A copy of a whole buffer is never short.
short_copy_whole : (b : Bytes) (f : Option Error) → short_copy (pos (length b)) b f ≡ f
unfolding short_copy
short_copy_whole b none = ground arith
short_copy_whole b (some e) = refl

pub copy_to-WritesPrefix :
    (s : Sink) (b : Bytes) → WritesPrefix s b (copy_to s b (pos (length b))).written
unfolding copy_to
copy_to-WritesPrefix s b =
    rw (take_all (length b) b (omega arith), short_copy_whole b) (write-WritesPrefix s b)

-- A head and the whole of a body behind it.
pub copy_after-WritesPrefix :
    (s : Sink) (a b : Bytes) (w : Written)
    → WritesPrefix s a w
    → WritesPrefix s (a ++ b) (copy_after w b (pos (length b))).written
unfolding copy_after
copy_after-WritesPrefix s a b w f = elim (Option-cases w.failure) [
  | inl ok ↦ simp ok (WritesPrefix-append f ok (copy_to-WritesPrefix w.sink b) refl)
  | inr (e, bad) ↦ simp bad (WritesPrefix-longer b f (λ ok. cc))
]

-- A write that fits, to a writer that has taken nothing.
pub WritesPrefix-whole :
    {s : Sink} {b : Bytes} {w : Written}
    → WritesPrefix s b w
    → s.out ≡ []
    → length b ≤ s.room
    → w.sink.out ≡ b
WritesPrefix-whole {s} {b} {w} f empty fits =
    f.prefix
    ∙ ap (λ (a : Bytes). a ++ take w.n b) empty
    ∙ take_all w.n b (omega (arith, f.whole (f.fits fits)))

-- What a writer has taken since it was `before`: what its other end has still to read, if it has
-- read what was written before.
abbrev pub since : Sink → Sink → Bytes
since before after = drop (length before.out) after.out

pub since-append : (s after : Sink) (b : Bytes) → after.out ≡ s.out ++ b → since s after ≡ b
since-append s after b e = ap (drop (length s.out)) e ∙ drop-append_at (length s.out) s.out b refl

pub WritesPrefix-since :
    {s : Sink} {b : Bytes} {w : Written}
    → WritesPrefix s b w
    → length b ≤ s.room
    → since s w.sink ≡ b
WritesPrefix-since {s} {b} {w} f fits =
    since-append s w.sink b
      (f.prefix ∙ ap (◌++◌ s.out) (take_all w.n b (omega (arith, f.whole (f.fits fits)))))

-- What a writer makes of the bytes `b`: it takes all of them and there is no error, or there is an
-- error, they did not fit, and it took the first `w.n` of them, which are not all.
abbrev pub Delivers : Sink → Bytes → Written → Type 0
Delivers s b w =
    ((w.failure ≡ none) × (w.sink.out ≡ s.out ++ b) × (w.n ≡ length b))
    ⊎ ((w.failure ≢ none)
        × (s.room < length b)
        × (w.n < length b)
        × (w.sink.out ≡ s.out ++ take w.n b))

pub WritesPrefix-Delivers :
    {s : Sink} {b : Bytes} {w : Written} → WritesPrefix s b w → Delivers s b w
WritesPrefix-Delivers {s} {b} {w} f = elim (Option-cases w.failure) [
  | inl ok ↦
      inl (ok, f.prefix ∙ ap (◌++◌ s.out) (take_all w.n b (omega (arith, f.whole ok))), f.whole ok)
  | inr (e, bad) ↦
      let fails : w.failure ≢ none = λ ok. cc in inr (fails, over fails, f.cut fails, f.prefix)
]
  where
    over : w.failure ≢ none → s.room < length b
    over fails = elim (Bool-cases (ltb s.room (length b))) [
      | inl big ↦ ltb→lt _ _ big
      | inr fit ↦ absurd (fails (f.fits (ltb→le _ _ fit)))
    ]
