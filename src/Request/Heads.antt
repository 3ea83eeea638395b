-- ===== src/Request/Heads.antt =====
-- The head of a request in the two parts that a connection reads, nine bytes and twelve.
use jtrpc.Common.{ℕ, ◌<◌, ◌^◌, ◌≡◌, refl, [], ◌∷◌, ◌++◌, append_assoc, Bytes, length, drop}
use jtrpc.Common.Maps.{nat_key}
use jtrpc.Wire.{get2, get8}
use jtrpc.Wire.RoundTrip.{le2, le8, get2-le2, get8-le8, u16_small, u64_small}
use jtrpc.Request.{byte_at}
use jtrpc.Request.RoundTrip.{head_bytes}

-- The id and the flags, and the three lengths.
abbrev pub front : ℕ → ℕ → Bytes
front id flags = le8 id ++ flags ∷ []

abbrev pub lens : ℕ → ℕ → ℕ → Bytes
lens pl hl bl = le2 pl ++ (le2 hl ++ le8 bl)

module _ (id flags pl hl bl : ℕ) where
  pub length-front : length (front id flags) ≡ 9
  unfolding le8
  length-front = refl

  pub byte_at-front : byte_at (front id flags) 8 ≡ flags
  unfolding le8
  byte_at-front = refl

  pub length-lens : length (lens pl hl bl) ≡ 12
  unfolding le8
  length-lens = refl

  pub body_len-lens : bl < 2 ^ 64 → get8 (drop 4 (lens pl hl bl)) ≡ bl
  unfolding le8
  body_len-lens h = get8-le8 bl [] h

  pub headers_len-lens : hl < 65536 → get2 (drop 2 (lens pl hl bl)) ≡ hl
  unfolding le8
  headers_len-lens h = get2-le2 hl _ h

pub head_bytes-front :
    (id flags bl : ℕ) (path headers tail : Bytes)
    → length path < 65536
    → length headers < 65536
    → bl < 2 ^ 64
    → head_bytes id flags path headers bl ++ tail
      ≡ front id flags ++ (lens (length path) (length headers) bl ++ (path ++ (headers ++ tail)))
unfolding le8
head_bytes-front id flags bl path headers tail hp hh hb =
    rw
      (
        u16_small (length path) hp,
        u16_small (length headers) hh,
        u64_small bl hb,
        append_assoc path headers tail,
      )
      refl
