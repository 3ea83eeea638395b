-- ===== src/Proxy/Replaced.antt =====
-- What replacing the map of servers, and reading it, makes of it.
use jtrpc.Common.{
  ◌≡◌, refl, Bool, true, false, Option, none, some, [], ◌∷◌, ◌++◌, Bytes, bytes_eq_iff, All, ◌⊎◌,
  Bool-cases, inl, inr, if◌then◌else◌, done, panics, arith,
}
use jtrpc.Common.Maps.{lookup, insert, lookup-insert, IsMap, bytes_key}
use jtrpc.Proxy.Paths.{codes}
use jtrpc.Proxy.Servers.{
  Server, Registry, Errors, is_admin, init, check_entry, replace_servers, shows, visible_servers,
}
use jtrpc.Proxy.Registry.{Entry, Given, init_entry, complaint}

module _ {K N : Type 0} where
  -- What the new map has at a path.
  abbrev pub replaced : Bytes → Entry K N → Entry K N
  replaced path none = none
  replaced path (some s) = if is_admin path then some s else some (init_entry s)

  -- `replaceServersHandler` puts every entry of a decoded map without null entries into the new map,
  -- also those that begin with /admin: these get an error, and are there without initialisation.
  pub replace_servers-replaces :
      (es : Registry K N) (errs : Errors)
      → IsMap es
      → All Given es
      → (m : Registry K N) × (errors : Errors) × (replace_servers es errs ≡ done (m, errors))
        × ((j : Bytes) → lookup j m ≡ replaced j (lookup j es))
        × ((j : Bytes) → lookup j errors ≡ complaint j none (lookup j es) (lookup j errs))
  unfolding replace_servers check_entry lookup
  replace_servers-replaces [] errs d g = ([], errs, refl, λ j. refl, λ j. refl)
  replace_servers-replaces ((path, none) ∷ es) errs d g = absurd g.0
  replace_servers-replaces ((path, some s) ∷ es) errs d g = elim (Bool-cases (is_admin path)) [
    | inl refused ↦
        let errs' = insert path (codes "First path segment cannot be /admin") errs in
        let (m, errors, runs, maps, fails) = replace_servers-replaces es errs' d.1 g.1 in
        (
          (path, some s) ∷ m,
          errors,
          rw (refused, runs) refl,
          (λ j. ground (arith, maps j, bytes_eq_iff path j, d.0)),
          (λ j. ground (
            arith,
            fails j,
            lookup-insert path j (codes "First path segment cannot be /admin") errs,
            bytes_eq_iff path j,
            d.0,
          )),
        )
    | inr other ↦
        let (m, errors, runs, maps, fails) = replace_servers-replaces es errs d.1 g.1 in
        (
          (path, some (init s)) ∷ m,
          errors,
          rw (other, runs) refl,
          (λ j. ground (arith, maps j, bytes_eq_iff path j, d.0)),
          (λ j. ground (arith, fails j, bytes_eq_iff path j, d.0)),
        )
  ]

  shows-cases :
      (authed : Bool) (s : Option (Server K N))
      → (shows authed s ≡ panics) ⊎ ((shows authed s ≡ done true) ⊎ (shows authed s ≡ done false))
  unfolding shows
  shows-cases true s = inr (inl refl)
  shows-cases false none = inl refl
  shows-cases false (some s) = ground arith

  -- `getServersHandler` panics as soon as there is a server to show, whatever the map has before and
  -- behind it.
  pub visible_servers_panics :
      (authed : Bool) (m n : Registry K N) (path : Bytes) (s : Option (Server K N))
      → shows authed s ≡ done true
      → visible_servers authed (m ++ (path, s) ∷ n) ≡ panics
  unfolding visible_servers
  visible_servers_panics authed [] n path s h = rw h refl
  visible_servers_panics authed ((p, t) ∷ m) n path s h = elim (shows-cases authed t) [
    | inl bad ↦ rw bad refl
    | inr (inl shown) ↦ rw shown refl
    | inr (inr passed) ↦ rw passed (visible_servers_panics authed m n path s h)
  ]
