-- ===== src/Proxy/Registry.antt =====
-- What the admin handlers make of the map of servers.
use jtrpc.Common.{
  ◌≡◌, refl, Bool, false, ◌||◌, Option, none, some, List, [], ◌∷◌, Bytes, bytes_eq, bytes_eq_iff,
  All, Bool-cases, Option-cases, inl, inr, if◌then◌else◌, done, arith,
}
use jtrpc.Common.Maps.{lookup, insert, delete, lookup-insert, lookup-delete, IsMap, bytes_key}
use jtrpc.Proxy.Paths.{codes}
use jtrpc.Proxy.Servers.{
  Server, Registry, Errors, is_admin, init, new_entry, new_servers, del_servers,
}

-- What is found under a path.
abbrev pub Entry : Type 0 → Type 0 → Type 0
Entry K N = Option (Option (Server K N))

-- The path is one of these.
abbrev pub member : Bytes → List Bytes → Bool
member j [] = false
member j (p ∷ ps) = bytes_eq p j || member j ps

abbrev pub Distinct : List Bytes → Type 0
Distinct [] = Unit {0}
Distinct (p ∷ ps) = (member p ps ≡ false) × Distinct ps

module _ {K N : Type 0} where
  -- The entry is not the null pointer.
  abbrev pub Given : Bytes × Option (Server K N) → Type 0
  Given (path, none) = ⊥
  Given (path, some s) = Unit {0}

  abbrev pub init_entry : Option (Server K N) → Option (Server K N)
  init_entry none = none
  init_entry (some s) = some (init s)

  -- What the map has at a path afterwards, from what it had and what is to be added.
  abbrev pub merged : Bytes → Entry K N → Entry K N → Entry K N
  merged path (some s) new = some s
  merged path none none = none
  merged path none (some s) = if is_admin path then none else some (init_entry s)

  -- The error of a path afterwards, from what the map had, what is to be added, and the error
  -- before.
  abbrev pub complaint : Bytes → Entry K N → Entry K N → Option Bytes → Option Bytes
  complaint path old none e = e
  complaint path old (some s) e =
      if is_admin path
      then some (codes "First path segment cannot be /admin")
      else elim old [ some _ ↦ some (codes "Already exists") | none ↦ e ]

  -- The loop of `newServersHandler` over `es` returns from a map and an error map.
  pub record Merges (es m : Registry K N) (errs : Errors) : Type 0 where
    pub after : Registry K N
    pub errors : Errors
    pub runs : new_servers es m errs ≡ done (after, errors)
    pub maps : (j : Bytes) → lookup j after ≡ merged j (lookup j m) (lookup j es)
    pub fails :
        (j : Bytes) → lookup j errors ≡ complaint j (lookup j m) (lookup j es) (lookup j errs)

  -- `newServersHandler` on a decoded map without null entries: a path that was there keeps its
  -- server; a new one that does not begin with /admin gets its server, initialised; all others stay
  -- absent. Exactly the paths to be added that begin with /admin or were there get an error, which
  -- says which of the two it is.
  pub new_servers-Merges :
      (es m : Registry K N) (errs : Errors) → IsMap es → All Given es → Merges es m errs
  unfolding new_servers new_entry lookup
  new_servers-Merges [] m errs d g = record {
    after = m;
    errors = errs;
    runs = refl;
    maps = λ j. ground arith;
    fails = λ j. refl;
  }
  new_servers-Merges ((path, none) ∷ es) m errs d g = absurd g.0
  new_servers-Merges ((path, some s) ∷ es) m errs d g = elim (Bool-cases (is_admin path)) [
    | inl refused ↦
        let later =
          new_servers-Merges es m (insert path (codes "First path segment cannot be /admin") errs)
            d.1 g.1 in
        record {
          after = later.after;
          errors = later.errors;
          runs = rw refused later.runs;
          maps = λ j. ground (arith, later.maps j, bytes_eq_iff path j, d.0);
          fails = λ j. ground (
            arith,
            later.fails j,
            lookup-insert path j (codes "First path segment cannot be /admin") errs,
            bytes_eq_iff path j,
            d.0,
          );
        }
    | inr other ↦ elim (Option-cases (lookup path m)) [
      | inr (old, there) ↦
          let later = new_servers-Merges es m (insert path (codes "Already exists") errs) d.1 g.1 in
          record {
            after = later.after;
            errors = later.errors;
            runs = rw (other, there) later.runs;
            maps = λ j. ground (arith, later.maps j, bytes_eq_iff path j, d.0);
            fails = λ j. ground (
              arith,
              later.fails j,
              lookup-insert path j (codes "Already exists") errs,
              bytes_eq_iff path j,
              d.0,
            );
          }
      | inl absent ↦
          let later = new_servers-Merges es (insert path (some (init s)) m) errs d.1 g.1 in
          record {
            after = later.after;
            errors = later.errors;
            runs = rw (other, absent) later.runs;
            maps = λ j. ground (
              arith,
              later.maps j,
              lookup-insert path j (some (init s)) m,
              bytes_eq_iff path j,
              d.0,
            );
            fails = λ j. ground (
              arith,
              later.fails j,
              lookup-insert path j (some (init s)) m,
              bytes_eq_iff path j,
              d.0,
            );
          }
    ]
  ]

  -- The error of a path that is to be deleted, from what the map had and the error before.
  abbrev pub missing : Entry K N → Option Bytes → Option Bytes
  missing (some _) e = e
  missing none e = some (codes "Path doesn't exist")

  -- `delServersHandler` on distinct paths takes exactly these out of the map, and gives an error for
  -- exactly those of them that were not there.
  pub del_servers-deletes :
      (paths : List Bytes) (m : Registry K N) (errs : Errors) (j : Bytes)
      → Distinct paths
      → (lookup j (del_servers paths m errs).0 ≡ (if member j paths then none else lookup j m))
        × (lookup j (del_servers paths m errs).1
            ≡ (if member j paths then missing (lookup j m) (lookup j errs) else lookup j errs))
  unfolding del_servers
  del_servers-deletes [] m errs j d = (refl, refl)
  del_servers-deletes (path ∷ paths) m errs j d = elim (Option-cases (lookup path m)) [
    | inr (old, there) ↦ (
      ground (
        arith,
        del_servers-deletes paths (delete path m) errs j d.1,
        lookup-delete path j m,
        bytes_eq_iff path j,
        d.0,
      ),
      ground (
        arith,
        del_servers-deletes paths (delete path m) errs j d.1,
        lookup-delete path j m,
        bytes_eq_iff path j,
        d.0,
      ),
    )
    | inl absent ↦ (
      ground (
        arith,
        del_servers-deletes paths m (insert path (codes "Path doesn't exist") errs) j d.1,
        bytes_eq_iff path j,
        d.0,
      ),
      ground (
        arith,
        del_servers-deletes paths m (insert path (codes "Path doesn't exist") errs) j d.1,
        lookup-insert path j (codes "Path doesn't exist") errs,
        bytes_eq_iff path j,
        d.0,
      ),
    )
  ]
