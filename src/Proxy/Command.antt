-- ===== src/Proxy/Command.antt =====
-- proxy/client.go: the command `client`, with which an operator reads and changes the proxy's map of
-- servers.
--
-- The flags are given as the package flag has parsed them. The client is a pointer, and `none` is
-- nil. The files, the functions of encoding/json, and what a connection to an address gives, with all
-- that the peer will send on it, are parameters. While the command waits for a response, the client's
-- loop runs. Texts that are only printed are kept as events, and an error is kept as the call that
-- failed.
use jtrpc.Common.{
  ℕ, ◌+◌, Bool, not, Option, none, some, List, [], ◌∷◌, ◌++◌, Bytes, length, nat_eq, if◌then◌else◌,
  Outcome, done, panics, stuck, zero, suc, ◌>>=◌,
}
use jtrpc.Flags.{status_ok, status_partial_error}
use jtrpc.Headers.Access.{set}
use jtrpc.Io.{Sink, WriteAll}
use jtrpc.Request.{Request, new_request}
use jtrpc.Response.{Response}
use jtrpc.Response.ReadAll.{body_bytes, body_string}
use jtrpc.Response.RoundTrip.{response_body}
use jtrpc.Client.{
  Client, continues, breaks, dies, Dialed, connected, io_failed, refused_with, with_rw,
  send_request,
}
use jtrpc.Client.Receive.{round}
use jtrpc.Client.Close.{Closing, already, deadlocks, closes, close_client}
use jtrpc.Common.Maps.{lookup, nat_key}
use jtrpc.Proxy.Paths.{codes}
use jtrpc.Proxy.Servers.{decoded, malformed}
use jtrpc.Proxy.Admin.{Json, password_key}

-- The errors of the four operations; an error response comes with its status and its body.
pub data CommandError : Type 0 where
  parsing_servers marshaling_paths sending canceled : CommandError
  reading_body not_indented : CommandError
  error_response : ℕ → Bytes → CommandError
  unread_response : ℕ → CommandError

-- What the command prints: the servers, the body of a partial error, an error under a heading,
-- that the proxy was not reached, or that it refuses its flags.
pub data Event : Type 0 where
  printed partial_error : Bytes → Event
  logged : Bytes → CommandError → Event
  not_connected refused_flags : Event

-- The client, what was printed, and the error.
pub record Ran (C : Type 0) : Type 0 where
  pub client : Option (Client C)
  pub events : List Event
  pub failure : Option CommandError

-- What an operation makes of the response.
abbrev pub Said : Type 0
Said = List Event × Option CommandError

-- `Send`, and the receive from the channel.
pub data Reply (C : Type 0) : Type 0 where
  unsent : Reply C
  closed_chan : Reply C
  replied : Response C → Reply C

-- The flags that `RunClient` reads; an empty text stands for a flag that is not given.
pub record Args : Type 0 where
  pub addr : Bytes
  pub password : Option Bytes
  pub get : Bool
  pub new : Bytes
  pub del : List Bytes
  pub replace : Bytes

-- `Set` of ArrayValue: the flag `-del` may be given several times.
unfoldable pub set_array_value : List Bytes → Bytes → List Bytes
set_array_value v s = v ++ s ∷ []

-- The end of the command: it returns, or `logger.Fatal` ends the process.
pub data Ended (C : Type 0) : Type 0 where
  returned : List Event → Closing C → Ended C
  exits : List Event → Closing C → Ended C

abbrev pub is_given : Bytes → Bool
is_given text = not (nat_eq (length text) 0)

abbrev pub or_env : Option Bytes → Bytes → Bytes
or_env (some p) env = p
or_env none env = env

abbrev pub with_body_bytes : {C : Type 0} → Request C → Bytes → Request C
with_body_bytes req body = if nat_eq (length body) 0 then req else record req { body = some body }

module _ {C : Type 0} (background : C) where
  -- `newClientReq`; what `Set` answers is not read.
  unfoldable pub new_client_req : Bytes → Bytes → Bytes → Outcome (Request C)
  new_client_req password path body =
      let req = new_request background path in
      elim req.headers [
        | none ↦ panics
        | some h ↦ set h password_key password >>= λ r.
            done (with_body_bytes (record req { headers = some r.0 }) body)
      ]

-- What the command uses of its surroundings: what is in a file that can be opened, json.Indent,
-- json.Marshal of texts, what the peer sends on a connection to an address and the connection's
-- writer, and the buffers of io.ReadAll.
pub record Host (C : Type 0) : Type 0 where
  pub open_file : Bytes → Option Bytes
  pub indent : Bytes → Option Bytes
  pub marshal_paths : List Bytes → Option Bytes
  pub net_dial : Bytes → Option (Bytes × Sink)
  pub room : ℕ → ℕ

abbrev pub connected_client : {C : Type 0} → Dialed C → Option (Client C)
connected_client (connected c) = some c
connected_client (io_failed e) = none
connected_client (refused_with resp) = none

module _ {C K N : Type 0} (write_all : WriteAll) (reentrant : Bool) (background : C)
    (json : Json K N) (host : Host C) where
  -- `Dial` of go/client.go.
  unfoldable pub dial : Bytes → Option (Client C)
  dial addr = elim (host.net_dial addr) [
    | none ↦ none
    | some (input, sink) ↦ connected_client (with_rw {C = C} write_all input sink)
  ]

  abbrev pub reply_of : Option (Response C) → Reply C
  reply_of none = closed_chan
  reply_of (some resp) = replied resp

  -- What the channel of the request with this id has.
  abbrev pub chan_of : Client C → ℕ → Option (Response C)
  chan_of c id = elim (lookup id c.reqs) [ none ↦ none | some rc ↦ rc.ch ]

  -- The end of the client's loop: `closeWithErr` closes the channel, if it comes to it.
  abbrev pub after_break : Client C → Outcome (Closing C) → Outcome (Client C × Option (Response C))
  after_break c (done already) = done (c, none)
  after_break c (done deadlocks) = stuck
  after_break c (done (closes c' chans)) = done (c', none)
  after_break c panics = panics
  after_break c stuck = stuck

  -- `<-respChan.Chan()`: the goroutine of the client takes rounds until the channel has a response or
  -- is closed. `stuck` is a receive that never comes back, or no fuel left; a round that goes on has
  -- read nine bytes at least, so as much fuel as there are bytes to come is enough.
  unfoldable pub receive_chan : ℕ → Client C → ℕ → Outcome (Client C × Option (Response C))
  receive_chan zero c id = stuck
  receive_chan (suc n) c id = elim (chan_of c id) [
    | some resp ↦ done (c, some resp)
    | none ↦ elim (round write_all c) [
      | continues c' ↦ receive_chan n c' id
      | breaks c' e ↦ after_break c' (close_client write_all reentrant c')
      | dies ↦ panics
    ]
  ]

  -- `client.Send(req)` and `<-respChan.Chan()`; a method of the nil client panics.
  unfoldable pub ask_proxy : Option (Client C) → Request C → Outcome (Option (Client C) × Reply C)
  ask_proxy none req = panics
  ask_proxy (some c) req =
      let (c1, r) = send_request write_all c req in
      elim r [
        | none ↦ done (some c1, unsent)
        | some rc ↦
            receive_chan (length c1.input + 1) c1 rc.req.id >>= λ a. done (some a.0, reply_of a.1)
      ]

  -- What follows on a response that is neither OK nor, where it may be, a partial error.
  unfoldable pub refused : Response C → Outcome Said
  refused resp = body_string host.room resp >>= λ b. done (
    [],
    some (elim b.failure [
      | none ↦ error_response resp.status b.got
      | some _ ↦ unread_response resp.status
    ]),
  )

  -- The end of `sendNewServers`, `sendDelServers` and `sendReplaceServers`.
  unfoldable pub changed : Response C → Outcome Said
  changed resp =
      if nat_eq resp.status status_partial_error
      then (body_string host.room resp >>= λ b. done (elim b.failure [
        | none ↦ (partial_error b.got ∷ [], none)
        | some _ ↦ ([], some reading_body)
      ]))
      else if not (nat_eq resp.status status_ok)
      then refused resp
      else done ([], none)

  abbrev indented : Bytes → Said
  indented b = elim (host.indent b) [
    | none ↦ ([], some not_indented)
    | some text ↦ (printed text ∷ [], none)
  ]

  -- The end of `getServers`.
  unfoldable pub shown : Response C → Outcome Said
  shown resp =
      if not (nat_eq resp.status status_ok)
      then refused resp
      else body_bytes host.room (length (response_body resp.body) + 1) resp >>= λ b.
          done (elim b.failure [ none ↦ indented b.got | some _ ↦ ([], some reading_body) ])

  abbrev pub said_to : (Response C → Outcome Said) → Reply C → Outcome Said
  said_to k unsent = done ([], some sending)
  said_to k closed_chan = done ([], some canceled)
  said_to k (replied resp) = k resp

  -- The part that the four operations share: the request, the reply, and what is made of it.
  unfoldable pub send_command :
      Option (Client C) → Outcome (Request C) → (Response C → Outcome Said) → Outcome (Ran C)
  send_command client request k = do
    req ← request
    asked ← ask_proxy client req
    said ← said_to k asked.1
    done (record { client = asked.0; events = said.0; failure = said.1 })

  -- `getServersBytes`
  unfoldable pub servers_bytes : Bytes → Option Bytes
  servers_bytes path = elim (host.open_file path) [
    | none ↦ none
    | some content ↦ elim (json.decode_servers content) [
      | malformed _ ↦ none
      | decoded servers ↦ json.marshal_servers servers
    ]
  ]

  -- An operation that needs the bytes of a value, and fails without them.
  abbrev pub given_bytes :
      Option (Client C) → CommandError → Option Bytes → (Bytes → Outcome (Ran C)) → Outcome (Ran C)
  given_bytes client e none k = done (record { client = client; events = []; failure = some e })
  given_bytes client e (some b) k = k b

  module _ (password : Bytes) where
    -- `getServers`
    unfoldable pub get_servers : Option (Client C) → Outcome (Ran C)
    get_servers client =
        send_command client (new_client_req background password (codes "/admin/servers") []) shown

    unfoldable pub send_new_servers : Bytes → Option (Client C) → Outcome (Ran C)
    send_new_servers path client = given_bytes client parsing_servers (servers_bytes path) λ b.
        send_command client (new_client_req background password (codes "/admin/servers/new") b)
          changed

    unfoldable pub send_del_servers : List Bytes → Option (Client C) → Outcome (Ran C)
    send_del_servers paths client =
        given_bytes client marshaling_paths (host.marshal_paths paths) λ b.
          send_command client (new_client_req background password (codes "/admin/servers/del") b)
            changed

    unfoldable pub send_replace_servers : Bytes → Option (Client C) → Outcome (Ran C)
    send_replace_servers path client = given_bytes client parsing_servers (servers_bytes path) λ b.
        send_command client (new_client_req background password (codes "/admin/servers/replace") b)
          changed
