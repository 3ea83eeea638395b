-- ===== src/Proxy/Paths.antt =====
-- proxy/mux.go, splitPath.
use Prim.Native.Char.{code}
use Prim.Native.String.{String}
use jtrpc.Common.{
  ℕ, suc, ◌≡◌, ◌≢◌, refl, sym, ap, ◌↔◌, inl, inr, Option, none, some, [], ◌∷◌, ◌++◌, Bytes, All,
  length, take, drop, take-append, drop-append, append-nil, nat_eq, nat_eq_iff, if◌then◌else◌,
  Bool-cases, arith,
}

-- The bytes of a text in the source, which is ASCII.
abbrev pub codes : String → Bytes
codes String.[] = []
codes (String.◌∷◌ c s) = code c ∷ codes s

abbrev pub slash : ℕ
slash = b'/'

-- `if path == "" || path[0] != '/' { path = "/" + path }`
unfoldable pub with_slash : Bytes → Bytes
with_slash [] = slash ∷ []
with_slash (c ∷ cs) = if nat_eq c slash then c ∷ cs else slash ∷ c ∷ cs

abbrev pub one_more : Option ℕ → Option ℕ
one_more none = none
one_more (some i) = some (suc i)

-- strings.IndexByte(s, '/'); `none` is -1.
unfoldable pub index_slash : Bytes → Option ℕ
index_slash [] = none
index_slash (c ∷ cs) = if nat_eq c slash then some 0 else one_more (index_slash cs)

-- The two parts at an index of the path behind its first byte.
abbrev pub cut_at : Bytes → Option ℕ → Bytes × Bytes
cut_at p none = (p, [])
cut_at p (some i) = (take (suc i) p, drop (suc i) p)

unfoldable pub split_path : Bytes → Bytes × Bytes
split_path path = let p = with_slash path in cut_at p (index_slash (drop 1 p))

-- What a first segment and what the rest behind it looks like.
abbrev pub IsSegment : Bytes → Type 0
IsSegment [] = ⊥
IsSegment (c ∷ cs) = (c ≡ slash) × All (λ d. d ≢ slash) cs

abbrev pub IsRest : Bytes → Type 0
IsRest [] = Unit {0}
IsRest (c ∷ cs) = c ≡ slash

-- What is found at the index of the first slash.
abbrev CutsAt : Bytes → Option ℕ → Type 0
CutsAt cs none = All (λ d. d ≢ slash) cs
CutsAt cs (some i) =
    All (λ d. d ≢ slash) (take i cs) × IsRest (drop i cs) × (take i cs ++ drop i cs ≡ cs)

CutsAt-cons :
    (c : ℕ) (cs : Bytes) (o : Option ℕ) → c ≢ slash → CutsAt cs o → CutsAt (c ∷ cs) (one_more o)
CutsAt-cons c cs none h k = (h, k)
CutsAt-cons c cs (some i) h k = ((h, k.0), k.1, ap (◌∷◌ c) k.2)

index_slash-CutsAt : (cs : Bytes) → CutsAt cs (index_slash cs)
unfolding index_slash
index_slash-CutsAt [] = tt
index_slash-CutsAt (c ∷ cs) = elim (Bool-cases (nat_eq c slash)) [
  | inl same ↦ rw same (tt, (nat_eq_iff c slash).0 same, refl)
  | inr other ↦ rw other (
      CutsAt-cons c cs (index_slash cs) (ground (arith, nat_eq_iff c slash))
        (index_slash-CutsAt cs))
]

-- The parts come together again.
IsSplit : Bytes → Bytes × Bytes → Type 0
IsSplit p (f, r) = (p ≡ f ++ r) × IsSegment f × IsRest r

cut_at-IsSplit :
    (cs : Bytes) (o : Option ℕ) → CutsAt cs o → IsSplit (slash ∷ cs) (cut_at (slash ∷ cs) o)
unfolding IsSplit
cut_at-IsSplit cs none h = (sym (append-nil (slash ∷ cs)), (refl, h), tt)
cut_at-IsSplit cs (some i) h = (ap (◌∷◌ slash) (sym h.2), (refl, h.0), h.1)

pub with_slash_starts : (path : Bytes) → (cs : Bytes) × (with_slash path ≡ slash ∷ cs)
unfolding with_slash
with_slash_starts [] = ([], refl)
with_slash_starts (c ∷ cs) = elim (Bool-cases (nat_eq c slash)) [
  | inl same ↦ (cs, rw (same, (nat_eq_iff c slash).0 same) refl)
  | inr other ↦ (c ∷ cs, rw other refl)
]

index_slash-append_none : (seg : Bytes) → All (λ d. d ≢ slash) seg → index_slash seg ≡ none
unfolding index_slash
index_slash-append_none [] h = refl
index_slash-append_none (c ∷ seg) h =
    ground (arith, nat_eq_iff c slash, h.0, index_slash-append_none seg h.1)

index_slash-append_some :
    (seg r : Bytes) → All (λ d. d ≢ slash) seg → index_slash (seg ++ slash ∷ r) ≡ some (length seg)
unfolding index_slash
index_slash-append_some [] r h = refl
index_slash-append_some (c ∷ seg) r h =
    ground (arith, nat_eq_iff c slash, h.0, index_slash-append_some seg r h.1)

-- Any two such parts are the ones that it is cut into.
cut_at_unique :
    (p f r : Bytes)
    → p ≡ f ++ r
    → IsSegment f
    → IsRest r
    → cut_at p (index_slash (drop 1 p)) ≡ (f, r)
cut_at_unique p [] r e hf hr = absurd hf
cut_at_unique p (c ∷ seg) [] e hf hr = rw (e, append-nil seg, index_slash-append_none seg hf.1) refl
cut_at_unique p (c ∷ seg) (d ∷ r) e hf hr =
    rw
      (
        e,
        hr,
        index_slash-append_some seg r hf.1,
        take-append seg (slash ∷ r),
        drop-append seg (slash ∷ r),
      )
      refl

-- `splitPath` gives the one way to cut the path, with a slash put before it where it has none, into
-- a first segment (a slash, and no slash behind it) and a rest that is empty or starts with a slash.
pub split_path_iff :
    (path f r : Bytes)
    → (split_path path ≡ (f, r)) ↔ ((with_slash path ≡ f ++ r) × IsSegment f × IsRest r)
unfolding split_path IsSplit
split_path_iff path f r = (λ e. rw e at whole, λ h. cut_at_unique (with_slash path) f r h.0 h.1 h.2)
  where
    whole : IsSplit (with_slash path) (split_path path)
    whole =
        let (cs, e) = with_slash_starts path in
        rw e (cut_at-IsSplit cs (index_slash cs) (index_slash-CutsAt cs))
