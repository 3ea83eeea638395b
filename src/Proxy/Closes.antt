-- ===== src/Proxy/Closes.antt =====
-- What closing the listener of the proxy, or one of its sides, does.
use jtrpc.Common.{◌≡◌, refl, sym, ap, ◌∙◌, true, false, Option, none, some, List, [], ◌∷◌}
use jtrpc.Proxy.Listener.{
  Chans, Listener, CloseError, fails, from_recv, error_or_closed, close_http, close_jtrpc,
  close_with_err, http_listener_close, jtrpc_listener_close, http_accept, jtrpc_accept,
}

pub data Side : Type 0 where
  http_side jtrpc_side : Side

module _ {U N : Type 0} (chans : Chans U N) where
  abbrev pub close_side : Listener U → Side → Listener U
  close_side pl http_side = http_listener_close chans pl
  close_side pl jtrpc_side = jtrpc_listener_close chans pl

  -- Calls of `Close` on the sides, one after the other.
  unfoldable pub close_sides : Listener U → List Side → Listener U
  close_sides pl [] = pl
  close_sides pl (side ∷ sides) = close_sides (close_side pl side) sides

  -- Calls of `closeWithErr`, one after the other.
  unfoldable pub close_all : Listener U → List (Option CloseError) → Listener U
  close_all pl [] = pl
  close_all pl (e ∷ es) = close_all (close_with_err chans pl e) es

  close_side-keeps :
      (pl : Listener U) (side : Side)
      → chans.is_closed pl.http_ch ≡ false
      → close_side pl side ≡ record pl { jtrpc_ch = chans.close pl.jtrpc_ch }
  unfolding http_listener_close jtrpc_listener_close close_jtrpc
  close_side-keeps pl http_side open_ = rw open_ refl
  close_side-keeps pl jtrpc_side open_ = rw open_ refl

  -- Whatever sides are closed, as often and in whatever order: the channel of HTTP connections is
  -- the same as before, so if it was open it still is, and the net.Listener is closed only if it
  -- was.
  pub close_sides-keeps :
      (pl : Listener U) (sides : List Side)
      → chans.is_closed pl.http_ch ≡ false
      → ((close_sides pl sides).http_ch ≡ pl.http_ch)
        × ((close_sides pl sides).ln_closed ≡ pl.ln_closed)
  unfolding close_sides
  close_sides-keeps pl [] open_ = (refl, refl)
  close_sides-keeps pl (side ∷ sides) open_ =
      let rest = close_sides-keeps (record pl { jtrpc_ch = chans.close pl.jtrpc_ch }) sides open_ in
      let first = ap (λ p. close_sides p sides) (close_side-keeps pl side open_) in
      (ap (λ p. p.http_ch) first ∙ rest.0, ap (λ p. p.ln_closed) first ∙ rest.1)

  -- `closeWithErr` of a listener that was not closed.
  abbrev closed_with : Listener U → Option CloseError → Listener U
  closed_with pl err = record {
    http_ch = chans.close pl.http_ch;
    jtrpc_ch = chans.close pl.jtrpc_ch;
    closed = true;
    err_val = some (error_or_closed err);
    ln_closed = true;
    tunnel_conn = pl.tunnel_conn;
  }

  close_with_err-closed_with :
      (pl : Listener U) (err : Option CloseError)
      → pl.closed ≡ false
      → close_with_err chans pl err ≡ closed_with pl err
  unfolding close_with_err close_http close_jtrpc
  close_with_err-closed_with pl err open_ = rw open_ refl

  close_all-closed_with :
      (pl : Listener U) (err : Option CloseError) (es : List (Option CloseError))
      → close_all (closed_with pl err) es ≡ closed_with pl err
  unfolding close_all close_with_err
  close_all-closed_with pl err [] = refl
  close_all-closed_with pl err (e ∷ es) = close_all-closed_with pl err es

  -- A listener that is open is closed with some error, or with none, which stands for ErrClosed, and
  -- then any number of times again: only the first time counts. Once its two channels have no
  -- connection any more, the Accept of both sides fails with the error of the first time.
  pub accept-close_all :
      (pl : Listener U) (err : Option CloseError) (es : List (Option CloseError))
      → pl.closed ≡ false
      → (chans.recv (chans.close pl.http_ch)).1 ≡ none
      → (chans.recv (chans.close pl.jtrpc_ch)).1 ≡ none
      → let after = close_all pl (err ∷ es) in
        (after ≡ close_with_err chans pl err)
        × ((http_accept chans after).1 ≡ fails (error_or_closed err))
        × ((jtrpc_accept chans after).1 ≡ fails (error_or_closed err))
  unfolding close_all http_accept jtrpc_accept
  accept-close_all pl err es open_ http jtrpc_ =
      let whole =
        ap (λ p. close_all p es) (close_with_err-closed_with pl err open_)
        ∙ close_all-closed_with pl err es in
      (
        whole ∙ sym (close_with_err-closed_with pl err open_),
        ap (λ p. (http_accept chans p).1) whole ∙ ap (from_recv (closed_with pl err)) http,
        ap (λ p. (jtrpc_accept chans p).1) whole ∙ ap (from_recv (closed_with pl err)) jtrpc_,
      )
