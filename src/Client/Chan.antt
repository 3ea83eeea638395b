-- ===== src/Client/Chan.antt =====
-- RespChan: a response is delivered once, and what a second Close does.
use jtrpc.Common.{◌≡◌, refl, true, false, some, done, panics, arith}
use jtrpc.Request.{Request}
use jtrpc.Response.{Response}
use jtrpc.Client.{RespChan, new_resp_chan, send_resp, close_chan}

module _ {C : Type 0} where
  -- On a channel that was never closed, the first response stays and a later one is dropped;
  -- neither send panics.
  pub send_resp_first :
      (req : Request C) (first second : Response C)
      → (rc : RespChan C) × (send_resp (new_resp_chan req) first ≡ done rc)
        × (rc.ch ≡ some first)
        × (send_resp rc second ≡ done rc)
  unfolding send_resp new_resp_chan
  send_resp_first req first second =
      (record (new_resp_chan req) { ch = some first }, refl, refl, refl)

  -- After one `Close`, which answers true, a second `Close` panics, and so does the delivery of a
  -- response: the Boolean that both test is never set.
  pub close_chan_twice :
      (rc : RespChan C) (resp : Response C)
      → rc.marked ≡ false
      → rc.ch_closed ≡ false
      → (shut : RespChan C) × (close_chan rc ≡ done (shut, true))
        × (close_chan shut ≡ panics)
        × (send_resp shut resp ≡ panics)
  unfolding close_chan send_resp
  close_chan_twice rc resp m c =
      (record rc { ch_closed = true }, ground arith, ground arith, ground arith)
