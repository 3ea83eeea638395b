-- ===== src/Exchange/Sides.antt =====
-- What the two sides write for a request of go/client.go and its response of go/server.go, and the
-- channel that waits for it.
use jtrpc.Common.{ℕ, ◌+◌, ◌≤◌, ◌<◌, ◌≡◌, sym, ap, ◌∙◌, some, ◌++◌, append_assoc, length}
use jtrpc.Common.Maps.{lookup, insert, lookup-insert_self, nat_key}
use jtrpc.Wire.{u64}
use jtrpc.Wire.RoundTrip.{u16_small}
use jtrpc.Io.{Sink, WriteAll, WritesAll}
use jtrpc.Io.Laws.{since, WritesPrefix-since}
use jtrpc.Request.{Request, encoded_headers, body_bytes, request_head}
use jtrpc.Request.RoundTrip.{id-write_request, write_request-WritesPrefix}
use jtrpc.Response.{Response, response_head, write_response}
use jtrpc.Response.RoundTrip.{
  fixed_bytes, response_body, response_head_lem, IsSized, write_response-WritesPrefix,
}
use jtrpc.Client.{Client, new_resp_chan, write_next, enter}

-- The id of the next request.
abbrev pub next_id : {C : Type 0} → Client C → ℕ
next_id c = u64 (c.req_counter + 1)

module _ {C : Type 0} (write_all : WriteAll) (total : WritesAll write_all) where
  -- What `Send` puts on the connection.
  pub write_next-bytes :
      (c : Client C) (req : Request C)
      → length (request_head (record req { id = next_id c }) ++ body_bytes req.body) ≤ c.sink.room
      → since c.sink (write_next write_all c req).0.sink
        ≡ request_head (record req { id = next_id c }) ++ body_bytes req.body
  unfolding write_next
  write_next-bytes c req fits =
      WritesPrefix-since
        (write_request-WritesPrefix write_all (record req { id = next_id c }) c.sink total) fits

  -- What the server writes for a response.
  pub write_response-bytes :
      (resp : Response C) (s : Sink)
      → IsSized resp
      → length (response_head resp ++ response_body resp.body) ≤ s.room
      → since s (write_response write_all resp s).1.sink
        ≡ response_head resp ++ response_body resp.body
  write_response-bytes resp s sized fits =
      WritesPrefix-since (write_response-WritesPrefix write_all resp s total sized) fits

  -- It is the wire format of its fields.
  pub response_head-fixed_bytes :
      (resp : Response C)
      → IsSized resp
      → length (encoded_headers resp.headers).0 < 65536
      → response_head resp ++ response_body resp.body
        ≡ fixed_bytes resp.req_id resp.flags resp.status
            (length (encoded_headers resp.headers).0)
            (length (response_body resp.body))
          ++ ((encoded_headers resp.headers).0 ++ response_body resp.body)
  response_head-fixed_bytes resp sized hh =
      rw (response_head_lem resp, sized.0, u16_small (length (encoded_headers resp.headers).0) hh)
        (append_assoc
          (fixed_bytes resp.req_id resp.flags resp.status (length (encoded_headers resp.headers).0)
            (length (response_body resp.body)))
          (encoded_headers resp.headers).0 (response_body resp.body))

  -- `Send` enters the channel under the id that it took.
  pub waits_for :
      (c : Client C) (req : Request C)
      → let (c1, sent) = write_next write_all c req in
        lookup (next_id c) (enter c1 sent).reqs ≡ some (new_resp_chan sent)
  unfolding enter write_next
  waits_for c req =
      ap (λ n. lookup n (insert sent.id (new_resp_chan sent) c.reqs))
        (sym (id-write_request write_all (record req { id = next_id c }) c.sink))
      ∙ lookup-insert_self sent.id (new_resp_chan sent) c.reqs
    where
      sent : Request C
      sent = (write_next write_all c req).1
