-- ===== src/Server/Rounds.antt =====
-- A round of the loop of a connection leaves every request to a goroutine that has it.
use jtrpc.Common.{ℕ, ◌+◌, refl, none, some, inl, inr, Bytes, Bool-cases, Option-cases, drop}
use jtrpc.Common.Int.{ℤ, pos, int64, gtz}
use jtrpc.Common.Maps.{lookup, nat_key}
use jtrpc.Wire.{u64, get2, get8}
use jtrpc.Flags.{
  has_stream_flag, has_stream_msg_flag, msg_flag_not_stream, status_not_found, status_not_stream,
  status_body_too_large,
}
use jtrpc.Io.{WriteAll, Written, copy_n}
use jtrpc.Request.{Request, make_request, byte_at}
use jtrpc.Stream.{of_io}
use jtrpc.Message.{write_message}
use jtrpc.Response.{new_response, write_status_msg}
use jtrpc.Server.{Limits, Handler, MuxOps, Job, runs, opens, Conn, answer, noop_handler}
use jtrpc.Server.Requests.{regular_chain, stream_chain, start, route, handle_req, frame}
use jtrpc.Server.Jobs.{Serves, AllServed}
use jtrpc.Server.Keeps.{Keeps, discard-Keeps, finish_with-Keeps, entered, handle_stream_msg-Keeps}

module _ {C S : Type 0} (write_all : WriteAll) (limits : Limits) (clone_slice : Bytes → Bytes)
    (sprint : ℤ → Bytes) (background : C) (addr : Bytes) (mux : MuxOps (Handler C) S) where
  start-Keeps :
      (c : Conn C S) (id flags : ℕ) (path : Bytes) (headers_len body_len : ℕ)
      (job : Request C → Job C S)
      → ((req : Request C) → Serves req.id (job req))
      → AllServed c
      → Keeps (
          start write_all limits clone_slice sprint background addr mux c id flags path headers_len
            body_len job)
  unfolding make_request
  start-Keeps c id flags path headers_len body_len job own h =
      let r = copy_n (pos headers_len) c.input in
      let r2 = copy_n (int64 body_len) r.rest in
      let req : Request C =
        record (make_request background id addr flags path (clone_slice r.got)) {
          body = some r2.got;
        } in
      elim (Option-cases r.failure) [
        | inr (e, bad) ↦ rw bad tt
        | inl ok ↦ rw ok (elim (Option-cases (copy_n (int64 body_len) r.rest).failure) [
          | inr (e, bad) ↦ rw bad tt
          | inl there ↦ rw there (entered (record c { input = r2.rest }) req (job req) (own req) h)
        ])
      ]

  route-Keeps :
      (c : Conn C S) (id flags : ℕ) (path : Bytes) (headers_len body_len : ℕ)
      → AllServed c
      → Keeps (
          route write_all limits clone_slice sprint background addr mux c id flags path headers_len
            body_len)
  route-Keeps c id flags path headers_len body_len h =
      let skipped = int64 (u64 (headers_len + body_len)) in
      elim (Bool-cases (has_stream_flag flags)) [
        | inl one ↦ rw one (elim (Option-cases (mux.stream_handler_at path)) [
          | inr (s, e) ↦ rw e (
              start-Keeps c id flags path headers_len body_len
                (λ req.
                  opens s (stream_chain mux path noop_handler) req
                    (new_response id flags (some req)))
                (λ req. refl) h)
          | inl e ↦ rw e (elim (Option-cases (mux.handler_at path)) [
            | inl none_there ↦
                rw none_there (discard-Keeps (answer write_all c id status_not_found) skipped h)
            | inr (k, there) ↦
                rw there (discard-Keeps (answer write_all c id status_not_stream) skipped h)
          ])
        ])
        | inr none_wanted ↦ rw none_wanted (elim (Option-cases (mux.handler_at path)) [
          | inl none_there ↦
              rw none_there (discard-Keeps (answer write_all c id status_not_found) skipped h)
          | inr (k, there) ↦ rw there (
              start-Keeps c id flags path headers_len body_len
                (λ req. runs (regular_chain mux path k) req (new_response id 0 (some req)))
                (λ req. refl) h)
        ])
      ]

  handle_req-Keeps :
      (c : Conn C S) (id flags : ℕ)
      → AllServed c
      → Keeps (handle_req write_all limits clone_slice sprint background addr mux c id flags)
  unfolding handle_req
  handle_req-Keeps c id flags h =
      let r = copy_n (pos 12) c.input in
      elim (Option-cases r.failure) [
        | inr (e, bad) ↦ rw bad tt
        | inl ok ↦
            rw ok (elim (Bool-cases (gtz (int64 (get8 (drop 4 r.got))) limits.max_body_len)) [
              | inl large ↦ rw large (
                  discard-Keeps
                    (record c {
                      input = r.rest;
                      sink =
                          (write_status_msg write_all id status_body_too_large
                            (sprint (int64 (get8 (drop 4 r.got)))) c.sink).sink;
                    })
                    (int64 (u64 (get8 (drop 4 r.got) + (get2 r.got + get2 (drop 2 r.got))))) h)
              | inr small ↦
                  rw small (elim (Option-cases (copy_n (pos (get2 r.got)) r.rest).failure) [
                    | inr (e, bad) ↦ rw bad tt
                    | inl there ↦ rw there (
                        route-Keeps (record c { input = (copy_n (pos (get2 r.got)) r.rest).rest })
                          id flags (copy_n (pos (get2 r.got)) r.rest).got (get2 (drop 2 r.got))
                          (get8 (drop 4 r.got)) h)
                  ])
            ])
      ]

  pub frame-Keeps :
      (c : Conn C S)
      → AllServed c
      → Keeps (frame write_all limits clone_slice sprint background addr mux c)
  unfolding frame
  frame-Keeps c h =
      let r = copy_n (pos 9) c.input in
      elim (Option-cases r.failure) [
        | inr (e, bad) ↦ rw bad tt
        | inl ok ↦ rw ok (elim (Bool-cases (has_stream_msg_flag (byte_at r.got 8))) [
          | inr request ↦
              rw request
                (handle_req-Keeps (record c { input = r.rest }) (get8 r.got) (byte_at r.got 8) h)
          | inl message ↦ rw message (elim (Option-cases (lookup (get8 r.got) c.streams)) [
            | inl absent ↦ rw absent (
                finish_with-Keeps (record c { input = r.rest; sink = (not_stream r.got).sink })
                  (of_io (not_stream r.got).failure) h)
            | inr (s, there) ↦ rw there (
                handle_stream_msg-Keeps write_all limits clone_slice (record c { input = r.rest })
                  (get8 r.got) s (byte_at r.got 8) h)
          ])
        ])
      ]
    where
      not_stream : Bytes → Written
      not_stream head =
          (write_message write_all
            (record { req_id = get8 head; flags = msg_flag_not_stream; body = none }) c.sink).1
