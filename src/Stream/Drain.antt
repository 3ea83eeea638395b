-- ===== src/Stream/Drain.antt =====
-- Several calls of Recv, one after the other.
use jtrpc.Common.{
  ℕ, zero, suc, ◌≡◌, refl, ap, false, Option, none, some, List, [], ◌∷◌, ◌++◌, length, inl, inr,
}
use jtrpc.Message.{Message}
use jtrpc.Stream.{Stream, Receipt, received, refused, blocks, holds, crashes, unset, recv}
use jtrpc.Stream.Order.{pending, IsQueue, recv-IsQueue}

abbrev pub Drained : Type 0
Drained = Option (List Message × Stream)

abbrev pub after_receipt : Receipt → (Stream → Drained) → Drained
after_receipt (received m s) k = elim (k s) [ none ↦ none | some (ms, t) ↦ some (m ∷ ms, t) ]
after_receipt (refused f) k = none
after_receipt blocks k = none
after_receipt (holds m s) k = none
after_receipt crashes k = none

-- So many messages from `Recv` without a deadline, and the stream afterwards.
abbrev pub recv_each : ℕ → Stream → Drained
recv_each zero s = some ([], s)
recv_each (suc n) s = after_receipt (recv s unset) (recv_each n)

-- An open stream, of whose pending messages `ms` are the first: as many calls give these.
pub recv_each-pending :
    (ms rest : List Message) (s : Stream)
    → IsQueue s
    → s.closed ≡ false
    → pending s ≡ ms ++ rest
    → (t : Stream) × (recv_each (length ms) s ≡ some (ms, t)) × (pending t ≡ rest)
recv_each-pending [] rest s q open_ e = (s, refl, e)
recv_each-pending (m ∷ ms) rest s q open_ e = elim (recv-IsQueue s q open_) [
  | inl (none_, _) ↦ absurd (cc)
  | inr (m', t, gives, first, q', open') ↦
      let same : (m' ≡ m) × (pending t ≡ ms ++ rest) = (cc, cc) in
      let (u, later, left) = recv_each-pending ms rest t q' open' same.1 in
      (u, rw (gives, later) (ap (λ x. some (x ∷ ms, u)) same.0), left)
]
