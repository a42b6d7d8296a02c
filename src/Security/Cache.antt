-- ===== src/Security/Cache.antt =====
-- The profiles that `load` of apps/api/src/security/permission.service.ts keeps for a while.
use newport_ms.Base.{
  ℕ, ◌+◌, ◌<◌, ◌≡◌, String, true, false, Option, some, arith, str_eq, eq_refl, Option-cases, inl,
  inr,
}
use newport_ms.Base.Maps.{lookup-delete, lookup-set}
use newport_ms.Security.{profile_of, AccessProfile, Cached, Directory, invalidate, load}
use newport_ms.Json.{Value}

module _ (parse : String → Option Value) where
  -- A profile that was read from the tables at some time is given again, whatever the tables have
  -- become, to each call of less than 30 seconds later that does not force a reading. Nothing is read
  -- and the kept profiles stay as they are.
  pub load-load :
      (d e : Directory) (t u : ℕ) (id : String) (cache : Cached) (p : AccessProfile)
      → (load parse d t true id cache).0 ≡ some p
      → u < t + 30000
      → load parse e u false id (load parse d t true id cache).1
        ≡ (some p, (load parse d t true id cache).1)
  unfolding load
  load-load d e t u id cache p h lt = elim (Option-cases (d.find_user id)) [
    | inl f ↦ ground (arith, f)
    | inr (user, f) ↦
        ground (arith, f, lookup-set id id (t, profile_of parse d t user) cache, eq_refl id)
  ]

  -- After the user's profile is dropped, the next call reads the tables: what it gives is the profile of
  -- the user's row as it is then, or nothing for a user who is deleted.
  load-invalidate :
      (d : Directory) (t : ℕ) (id : String) (cache : Cached)
      → str_eq id "" ≡ false
      → (load parse d t false id (invalidate (some id) cache)).0
        ≡ mathlib.Core.Option.map (profile_of parse d t) (d.find_user id)
  unfolding load invalidate
  load-invalidate d t id cache h = elim (Option-cases (d.find_user id)) [
    | inl f ↦ ground (arith, f, lookup-delete id id cache, eq_refl id)
    | inr (user, f) ↦ ground (arith, f, lookup-delete id id cache, eq_refl id)
  ]
