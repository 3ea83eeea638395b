-- ===== src/Proxy/RunClient.antt =====
-- proxy/client.go, RunClient: the operations that the flags ask for, one after the other.
use jtrpc.Common.{
  Bool, true, false, not, ◌&&◌, ◌||◌, Option, none, some, ◌≡◌, ◌⊎◌, inl, inr, refl, List, [], ◌∷◌,
  ◌++◌, Bytes, length, nat_eq, if◌then◌else◌, Outcome, done, panics, ◌>>=◌,
}
use jtrpc.Io.{WriteAll}
use jtrpc.Response.{Response}
use jtrpc.Client.{Client}
use jtrpc.Client.Close.{Closing, close_client}
use jtrpc.Proxy.Paths.{codes}
use jtrpc.Proxy.Admin.{Json}
use jtrpc.Proxy.Authorized.{new_client_req-Asks}
use jtrpc.Proxy.Command.{
  given_bytes, changed, Said, new_client_req, send_command, ask_proxy, CommandError, Event, logged,
  not_connected, refused_flags, Ran, Args, Ended, returned, exits, is_given, or_env, Host, dial,
  get_servers, send_new_servers, send_del_servers, send_replace_servers,
}

module _ {C K N : Type 0} (write_all : WriteAll) (reentrant : Bool) (background : C)
    (json : Json K N) (host : Host C) where
  -- The client, and what was printed so far.
  abbrev pub Progress : Type 0
  Progress = Option (Client C) × List Event

  abbrev logged_under : Bytes → Option CommandError → List Event
  logged_under heading none = []
  logged_under heading (some e) = logged heading e ∷ []

  -- `if wanted { if err := op(client); err != nil { logger.Printf(...) } }`
  unfoldable pub operation :
      Bool → Bytes → (Option (Client C) → Outcome (Ran C)) → Progress → Outcome Progress
  operation false heading op p = done p
  operation true heading op (client, events) =
      op client >>= λ r. done (r.client, events ++ r.events ++ logged_under heading r.failure)

  -- `client.Close()`
  unfoldable pub close_opt : Option (Client C) → Outcome (Closing C)
  close_opt none = panics
  close_opt (some c) = close_client write_all reentrant c

  abbrev pub start_events : Option (Client C) → List Event
  start_events none = not_connected ∷ []
  start_events (some c) = []

  -- `RunClient`: the headings stand as in the code. A client that could not be made is nil, and is
  -- used and closed as if it were one.
  unfoldable pub run_client : Bytes → Args → Outcome (Ended C)
  run_client env args =
      let password = or_env args.password env in
      let client = dial write_all reentrant background json host args.addr in
      if is_given args.replace && (is_given args.new || not (nat_eq (length args.del) 0))
      then (close_opt client >>= λ closing.
          done (exits (start_events client ++ refused_flags ∷ []) closing))
      else do
        p1 ←
            operation (is_given args.replace) (codes "Error replacing")
              (send_replace_servers write_all reentrant background json host password args.replace)
              (client, start_events client)
        p2 ←
            operation (not (nat_eq (length args.del) 0)) (codes "Error adding server(s)")
              (send_del_servers write_all reentrant background json host password args.del) p1
        p3 ←
            operation (is_given args.new) (codes "Error deleting path(s)")
              (send_new_servers write_all reentrant background json host password args.new) p2
        p4 ←
            operation args.get (codes "Error getting servers")
              (get_servers write_all reentrant background json host password) p3
        closing ← close_opt p4.0
        done (returned p4.1 closing)

  -- An operation on the nil client panics, or fails before it uses it.
  abbrev FailsOnNil : (Option (Client C) → Outcome (Ran C)) → Type 0
  FailsOnNil op = (op none ≡ panics) ⊎ ((r : Ran C) × (op none ≡ done r) × (r.client ≡ none))

  send_command_nil :
      (password path b : Bytes) (k : Response C → Outcome Said)
      → send_command write_all reentrant background json host none
          (new_client_req background password path b)
          k
        ≡ panics
  unfolding send_command ask_proxy
  send_command_nil password path b k = rw (new_client_req-Asks background password path b).made refl

  get_servers-FailsOnNil :
      (password : Bytes)
      → FailsOnNil (get_servers write_all reentrant background json host password)
  unfolding get_servers
  get_servers-FailsOnNil password = inl (send_command_nil password _ _ _)

  given_bytes-FailsOnNil :
      (e : CommandError) (bytes : Option Bytes) (password path : Bytes)
      → FailsOnNil λ client.
        given_bytes write_all reentrant background json host client e bytes λ b.
          send_command write_all reentrant background json host client
            (new_client_req background password path b)
            (changed write_all reentrant background json host)
  given_bytes-FailsOnNil e none password path =
      inr (record { client = none; events = []; failure = some e }, refl, refl)
  given_bytes-FailsOnNil e (some b) password path = inl (send_command_nil password path b _)

  operation_nil :
      (wanted : Bool) (heading : Bytes) (op : Option (Client C) → Outcome (Ran C))
      (events : List Event) (k : Progress → Outcome (Ended C))
      → FailsOnNil op
      → ((events' : List Event) → k (none, events') ≡ panics)
      → (operation wanted heading op (none, events) >>= k) ≡ panics
  unfolding operation
  operation_nil false heading op events k h fails = fails events
  operation_nil true heading op events k h fails = elim h [
    | inl e ↦ rw e refl
    | inr (r, e, nil_) ↦ simp (e, nil_, fails)
  ]

  if_panics :
      (b : Bool) (x y : Outcome (Ended C)) → x ≡ panics → y ≡ panics → (if b then x else y) ≡ panics
  if_panics true x y h k = h
  if_panics false x y h k = k

  -- The proxy is not reached, or does not accept the client: the command panics, whatever its other
  -- flags are, since it uses or closes the nil client.
  pub run_client-undialed :
      (env : Bytes) (args : Args)
      → dial write_all reentrant background json host args.addr ≡ none
      → run_client env args ≡ panics
  unfolding run_client close_opt send_replace_servers send_del_servers send_new_servers
  run_client-undialed env args fails = rw fails (
      if_panics _ _ _ refl (
        operation_nil _ _ _ _ _ (given_bytes-FailsOnNil _ _ _ _) λ e1.
          operation_nil _ _ _ e1 _ (given_bytes-FailsOnNil _ _ _ _) λ e2.
            operation_nil _ _ _ e2 _ (given_bytes-FailsOnNil _ _ _ _)
              λ e3. operation_nil _ _ _ e3 _ (get_servers-FailsOnNil _) λ e4. refl))
