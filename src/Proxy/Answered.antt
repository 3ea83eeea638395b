-- ===== src/Proxy/Answered.antt =====
-- The command of proxy/client.go on a connection on which its request is answered.
use jtrpc.Common.{panics, ℕ, Option, none, some, Bytes, Outcome, done}
use jtrpc.Common.Maps.{insert, nat_key}
use jtrpc.Io.{WriteAll, WritesAll}
use jtrpc.Request.{Request}
use jtrpc.Response.{Response}
use jtrpc.Client.{Client, RespChan, new_resp_chan, write_next, enter, Turn, continues, breaks, dies}
use jtrpc.Client.Receive.{round}
use jtrpc.Exchange.Sides.{next_id}
use jtrpc.Client.Close.{close_client}
use jtrpc.Proxy.Admin.{Json}
use jtrpc.Proxy.Command.{after_break, Host, receive_chan}
use jtrpc.Common.{Bool}

module _ {C K N : Type 0} (write_all : WriteAll) (total : WritesAll write_all) (reentrant : Bool)
    (background : C) (json : Json K N) (host : Host C) where
  abbrev ch_of : Option (RespChan C) → Option (Response C)
  ch_of o = elim o [ none ↦ none | some rc ↦ rc.ch ]

  -- The receive behind a round, and what it does by what is in the channel.
  abbrev after_round : ℕ → ℕ → Turn C → Outcome (Client C × Option (Response C))
  after_round n id t = elim t [
    | continues c ↦ receive_chan write_all reentrant background json host n c id
    | breaks c e ↦
        after_break write_all reentrant background json host c (close_client write_all reentrant c)
    | dies ↦ panics
  ]

  abbrev by_channel :
      ℕ → Client C → ℕ → Option (Response C) → Outcome (Client C × Option (Response C))
  by_channel n c id o = elim o [
    | none ↦ after_round n id (round write_all c)
    | some resp ↦ done (c, some resp)
  ]

  -- The client and the channel of the request after `Send`.
  abbrev pub sent_of : Client C → Request C → Request C
  sent_of c req = (write_next write_all c req).1

  abbrev pub after_send : Client C → Request C → Client C
  after_send c req = enter (write_next write_all c req).0 (sent_of c req)

  -- The client behind the round that has read such a response.
  abbrev pub after_answer : Client C → Request C → Response C → Bytes → Client C
  after_answer c req resp rest = record (after_send c req) {
    input = rest;
    reqs =
        insert (next_id c) (record (new_resp_chan (sent_of c req)) { ch = some resp })
          (after_send c req).reqs;
  }
