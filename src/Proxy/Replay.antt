-- ===== src/Proxy/Replay.antt =====
-- proxy/listeners.go, Conn: a connection that gives the bytes again that were read to see what it
-- is for.
use jtrpc.Common.{
  ℕ, ◌-◌, ◌≤◌, ◌≡◌, refl, sym, ap, ◌∙◌, true, false, not, ◌&&◌, Option, none, List, [], ◌∷◌, ◌++◌,
  append-nil, append_assoc, Bytes, Bool-cases, inl, inr, length, length-append, length-take,
  length-drop, take, drop, take-append-drop, nat_eq, nat_eq_iff, if◌then◌else◌, arith,
}
use jtrpc.Io.{Error, Reading}
use jtrpc.Proxy.Listener.{Replayed, new_conn}

-- A call of `Read`: the connection afterwards, the bytes, and the error.
pub record GotBytes : Type 0 where
  pub conn : Replayed
  pub got : Bytes
  pub failure : Option Error

-- `clearInitial`
unfoldable pub clear_initial : Replayed → Replayed
clear_initial c = if c.read_initial then c else record c { read_initial = true; initial = [] }

-- The connection's own reader: `Read` into a buffer of some size.
module _ (read : ℕ → Bytes → Reading) where
  -- `n` bytes of the first ones, and then what is left of the buffer from the connection.
  abbrev pub read_behind : Replayed → Bytes → ℕ → GotBytes
  read_behind c front n =
      let r = read n c.input in
      record { conn = record c { input = r.rest }; got = front ++ r.got; failure = r.failure }

  abbrev pub take_initial : Replayed → ℕ → Replayed
  take_initial c n = record c {
    initial = drop n c.initial;
    read_initial =
        if not (nat_eq (length (take n c.initial)) 0) && nat_eq (length (drop n c.initial)) 0
        then true
        else c.read_initial;
  }

  -- `Read` of Conn into a buffer of `n` bytes.
  unfoldable pub conn_read : Replayed → ℕ → GotBytes
  conn_read c n =
      if nat_eq n 0
      then record { conn = c; got = []; failure = none }
      else if c.read_initial
      then read_behind c [] n
      else if nat_eq (n - length (take n c.initial)) 0
      then record { conn = take_initial c n; got = take n c.initial; failure = none }
      else read_behind (take_initial c n) (take n c.initial) (n - length (take n c.initial))

  -- Reads into buffers of these sizes: what they give together.
  unfoldable pub conn_reads : Replayed → List ℕ → Replayed × Bytes
  conn_reads c [] = (c, [])
  conn_reads c (n ∷ ns) =
      let r = conn_read c n in let (c', more) = conn_reads r.conn ns in (c', r.got ++ more)

  -- A reader gives what is at the front of the stream, at most as much as there is room for.
  abbrev pub Reads : Type 0
  Reads =
      (n : ℕ) (b : Bytes) → ((read n b).got ++ (read n b).rest ≡ b) × (length (read n b).got ≤ n)

  -- When the mark is set, no first bytes are left.
  abbrev pub IsReplay : Replayed → Type 0
  IsReplay c = c.read_initial ≡ true → c.initial ≡ []

  -- What one `Read` gives is what the connection has next.
  record ReadsNext (c : Replayed) (n : ℕ) (r : GotBytes) : Type 0 where
    next : r.got ++ (r.conn.initial ++ r.conn.input) ≡ c.initial ++ c.input
    fits : length r.got ≤ n
    replay : IsReplay r.conn

  length-zero : (b : Bytes) → length b ≡ 0 → b ≡ []
  length-zero [] h = refl
  length-zero (x ∷ b) h = absurd (omega arith)

  take_initial-IsReplay :
      (c : Replayed) (n : ℕ) → IsReplay c → c.read_initial ≡ false → IsReplay (take_initial c n)
  take_initial-IsReplay c n h unread marked =
      elim (Bool-cases (nat_eq (length (drop n c.initial)) 0)) [
        | inl all ↦ length-zero (drop n c.initial) ((nat_eq_iff _ _).0 all)
        | inr some_ ↦ absurd (ground (arith, some_, marked, unread))
      ]

  -- Behind the first bytes.
  drop_none :
      (c : Replayed) (n : ℕ)
      → nat_eq (n - length (take n c.initial)) 0 ≡ false
      → drop n c.initial ≡ []
  drop_none c n room = length-zero (drop n c.initial) (
      ground (
        arith,
        nat_eq_iff (n - length (take n c.initial)) 0,
        length-take n c.initial,
        length-drop n c.initial,
      ))

  read_behind-ReadsNext :
      (c : Replayed) (n : ℕ)
      → Reads
      → drop n c.initial ≡ []
      → IsReplay (take_initial c n)
      → ReadsNext c n
          (read_behind (take_initial c n) (take n c.initial) (n - length (take n c.initial)))
  read_behind-ReadsNext c n reads empty replay = record {
    next = rw empty (
        append_assoc (take n c.initial) (read k c.input).got (read k c.input).rest
        ∙ ap (◌++◌ (take n c.initial)) (reads k c.input).0
        ∙ ap (λ (b : Bytes). b ++ c.input) whole);
    fits = omega (
      arith,
      length-append (take n c.initial) (read k c.input).got,
      (reads k c.input).1,
      length-take n c.initial,
    );
    replay = replay;
  }
    where
      k : ℕ
      k = n - length (take n c.initial)

      whole : take n c.initial ≡ c.initial
      whole =
          sym (append-nil (take n c.initial))
          ∙ ap (◌++◌ (take n c.initial)) (sym empty)
          ∙ take-append-drop n c.initial

  -- The two ways of a read of which the mark is not set.
  conn_read_unread :
      (c : Replayed) (n : ℕ)
      → nat_eq n 0 ≡ false
      → c.read_initial ≡ false
      → conn_read c n ≡ (
          if nat_eq (n - length (take n c.initial)) 0
          then record { conn = take_initial c n; got = take n c.initial; failure = none }
          else read_behind (take_initial c n) (take n c.initial) (n - length (take n c.initial)))
  unfolding conn_read
  conn_read_unread c n some_ unread = simp (some_, unread)

  unread-ReadsNext :
      (c : Replayed) (n : ℕ)
      → Reads
      → IsReplay (take_initial c n)
      → ReadsNext c n (
          if nat_eq (n - length (take n c.initial)) 0
          then record { conn = take_initial c n; got = take n c.initial; failure = none }
          else read_behind (take_initial c n) (take n c.initial) (n - length (take n c.initial)))
  unread-ReadsNext c n reads replay = elim (Bool-cases (nat_eq (n - length (take n c.initial)) 0)) [
    | inl full ↦ rw full (record {
      next =
          sym (append_assoc (take n c.initial) (drop n c.initial) c.input)
          ∙ ap (λ (b : Bytes). b ++ c.input) (take-append-drop n c.initial);
      fits = omega (arith, length-take n c.initial);
      replay = replay;
    })
    | inr room ↦ rw room (read_behind-ReadsNext c n reads (drop_none c n room) replay)
  ]

  conn_read-ReadsNext : (c : Replayed) (n : ℕ) → Reads → IsReplay c → ReadsNext c n (conn_read c n)
  unfolding conn_read
  conn_read-ReadsNext c n reads h = elim (Bool-cases (nat_eq n 0)) [
    | inl none_ ↦ rw none_ (record { next = refl; fits = omega arith; replay = h })
    | inr some_ ↦ elim (Bool-cases c.read_initial) [
      | inl marked ↦
          simp (some_, marked)
            (record {
              next = rw (h marked) (reads n c.input).0;
              fits = (reads n c.input).1;
              replay = λ e. h marked;
            })
      | inr unread ↦
          rw (conn_read_unread c n some_ unread)
            (unread-ReadsNext c n reads (take_initial-IsReplay c n h unread))
    ]
  ]

  -- However large the buffers are: what the reads of a new Conn give together, with what it still
  -- has, is the bytes that were read before and then what the connection sends. The connection's own
  -- reader is taken to give what is next.
  pub conn_reads-new_conn :
      (input initial : Bytes) (sizes : List ℕ)
      → Reads
      → let (c, got) = conn_reads (new_conn input initial) sizes in
        got ++ (c.initial ++ c.input) ≡ initial ++ input
  unfolding new_conn conn_reads
  conn_reads-new_conn input initial sizes reads = go (new_conn input initial) sizes (λ e. absurd cc)
    where
      go :
          (c : Replayed) (ns : List ℕ)
          → IsReplay c
          → (conn_reads c ns).1 ++ ((conn_reads c ns).0.initial ++ (conn_reads c ns).0.input)
            ≡ c.initial ++ c.input
      go c [] h = refl
      go c (n ∷ ns) h =
          let first = conn_read-ReadsNext c n reads h in
          append_assoc (conn_read c n).got (conn_reads (conn_read c n).conn ns).1 _
          ∙ ap (◌++◌ (conn_read c n).got) (go (conn_read c n).conn ns first.replay)
          ∙ first.next
