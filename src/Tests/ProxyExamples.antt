-- ===== src/Tests/ProxyExamples.antt =====
-- The proxy's map of servers and its routing on small inputs.
use jtrpc.Common.{
  List, ℕ, ◌≡◌, ◌↔◌, refl, true, false, Option, none, some, [], ◌∷◌, ◌++◌, Bytes, bytes_eq,
  if◌then◌else◌, done,
}
use jtrpc.Common.Int.{pos}
use jtrpc.Common.Maps.{lookup, IsMap, bytes_key}
use jtrpc.Flags.{status_unauthorized}
use jtrpc.Headers.{Headers, parsed_headers}
use jtrpc.Headers.Access.{get_checked}
use jtrpc.Request.{Request}
use jtrpc.Response.{Response, new_response, set_body}
use jtrpc.Proxy.Paths.{
  codes, with_slash, index_slash, split_path, split_path_iff, IsSegment, IsRest,
}
use jtrpc.Proxy.Servers.{decoded, Server, Registry, malformed, del_servers}
use jtrpc.Proxy.Registry.{Merges, new_servers-Merges, del_servers-deletes, member, missing}
use jtrpc.Proxy.Routing.{Info, Asked, answered}
use jtrpc.Proxy.Admin.{Json}
use jtrpc.Proxy.Routes.{serve_regular, info_for, serve_regular-unauthorized}
use jtrpc.Proxy.Added.{new_path}
use jtrpc.Tests.{same_slice, key_a}

abbrev deep : Bytes
deep = codes "/a/b"

split_deep : split_path deep ≡ (codes "/a", codes "/b")
unfolding split_path with_slash index_slash
split_deep = refl

split_bare : split_path (codes "a") ≡ (codes "/a", [])
unfolding split_path with_slash index_slash
split_bare = refl

split_path_iff_example :
    (split_path deep ≡ (codes "/a", codes "/b"))
    ↔ ((with_slash deep ≡ codes "/a" ++ codes "/b") × IsSegment (codes "/a") × IsRest (codes "/b"))
split_path_iff_example = split_path_iff deep (codes "/a") (codes "/b")

abbrev plain_server : Server ℕ ℕ
plain_server = record {
  name = key_a;
  path = [];
  addr = codes "host";
  hidden = false;
  clients = none;
  tunnel_conn = none;
  tch = none;
  n_waiting = pos 0;
}

abbrev at_slash_a : Registry ℕ ℕ
at_slash_a = (codes "/a", some plain_server) ∷ []

at_slash_a-IsMap : IsMap at_slash_a
unfolding lookup
at_slash_a-IsMap = (refl, tt)

new_servers-Merges_example : Merges at_slash_a [] []
new_servers-Merges_example = new_servers-Merges at_slash_a [] [] at_slash_a-IsMap (tt, tt)

del_servers-deletes_example :
    (lookup (codes "/a") (del_servers (codes "/a" ∷ []) at_slash_a []).0
      ≡ (if member (codes "/a") (codes "/a" ∷ []) then none else lookup (codes "/a") at_slash_a))
    × (lookup (codes "/a") (del_servers (codes "/a" ∷ []) at_slash_a []).1 ≡ (
        if member (codes "/a") (codes "/a" ∷ [])
        then missing (lookup (codes "/a") at_slash_a) (lookup (codes "/a") [])
        else lookup (codes "/a") []))
del_servers-deletes_example =
    del_servers-deletes (codes "/a" ∷ []) at_slash_a [] (codes "/a") (refl, tt)

-- A context is the information that was put into it.
abbrev Ctx : Type 0
Ctx = Option (Info ℕ ℕ)

abbrev info_of : Ctx → Option (Info ℕ ℕ)
info_of c = c

abbrev with_info : Ctx → Info ℕ ℕ → Ctx
with_info c i = some i

abbrev no_json : Json ℕ ℕ
no_json = record {
  decode_servers = λ b. malformed [];
  decode_paths = λ b. malformed [];
  marshal_servers = λ m. none;
  marshal_errors = λ e. none;
}

-- A server that answers with the path that it is asked for; the sending leaves it with a client.
abbrev echo : Server ℕ ℕ → Request Ctx → List ℕ × (Request Ctx × Asked Ctx)
echo s req = (4 ∷ [], (record req { id = 5 }, answered (set_body (new_response 5 0 none) req.path)))

abbrev request_for : Bytes → Request Ctx
request_for path = record {
  id = 1;
  ctx = none;
  remote_addr = [];
  flags = 0;
  path = path;
  headers = some (parsed_headers []);
  body = some [];
}

abbrev fresh_response : Response Ctx
fresh_response = new_response 1 0 none

abbrev running : Server ℕ ℕ
running = record plain_server { clients = some [] }

abbrev running_at_a : Registry ℕ ℕ
running_at_a = (codes "/a", some running) ∷ []

found_plain : lookup (split_path deep).0 at_slash_a ≡ some (some plain_server)
unfolding split_path with_slash index_slash lookup bytes_eq
found_plain = refl

nothing_there : lookup {V = Option (Server ℕ ℕ)} (split_path deep).0 [] ≡ none
unfolding lookup
nothing_there = refl

abbrev admin_path : Bytes
admin_path = codes "/admin/servers/new"

is_admin_path :
    (bytes_eq (split_path admin_path).0 (codes "/admin") ≡ true)
    × (bytes_eq (split_path admin_path).1 (codes "/servers") ≡ false)
unfolding split_path with_slash index_slash bytes_eq
is_admin_path = (refl, refl)

no_password : get_checked (parsed_headers []) (codes "password") ≡ done none
unfolding get_checked lookup
no_password = refl

serve_regular-unauthorized_test :
    serve_regular ℕ info_of with_info no_json echo key_a same_slice running_at_a
      (request_for admin_path)
      fresh_response
    ≡ done (
      running_at_a,
      (
        record (request_for admin_path) { ctx = some (info_for admin_path none) },
        set_body
            (record fresh_response { status = status_unauthorized })
            (codes "invalid credentials"),
      ),
    )
serve_regular-unauthorized_test =
    serve_regular-unauthorized ℕ info_of with_info no_json echo key_a same_slice running_at_a
      (request_for admin_path) fresh_response (parsed_headers []) none is_admin_path.0
      is_admin_path.1 refl refl no_password refl

-- Whatever is decoded, it is the one server.
abbrev one_json : Json ℕ ℕ
one_json = record no_json { decode_servers = λ b. decoded at_slash_a }

abbrev with_password : Headers
with_password = parsed_headers ((codes "password", key_a) ∷ [])

abbrev adds : Request Ctx
adds = record (request_for admin_path) { headers = some with_password }

admin_rest : (split_path admin_path).1 ≡ new_path
unfolding split_path with_slash index_slash
admin_rest = refl

right_password :
    (get_checked with_password (codes "password") ≡ done (some key_a))
    × (bytes_eq key_a key_a ≡ true)
unfolding get_checked lookup bytes_eq
right_password = (refl, refl)
