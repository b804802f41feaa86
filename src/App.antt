-- ===== src/App.antt =====
-- src/cimd_proxy/app.py: the life of the application around the token store, `lifespan`.
use cimd_proxy.Prelude.{String, ◌≡◌, refl, Bool, true, false, List, [], ◌∷◌, ◌⊎◌, inl, inr, Option}
use cimd_proxy.Errors.{Result, ok, err}
use cimd_proxy.Pat.Schema.{Migration, check_schema}

-- What happens to the pool, and that requests are served.
pub data Event : Type 0 where
  opened : Event
  served : Event
  closed : Event

-- The end of the life, where the store is the application's own.
unfoldable pub serve_owned :
    (serving : Result (Unit {0})) → Result (Unit {0}) → List Event × Result (Unit {0})
serve_owned serving (err e) = (opened ∷ closed ∷ [], err e)
serve_owned serving (ok tt) = (opened ∷ served ∷ closed ∷ [], serving)

-- `lifespan`: what the opening of the pool and the serving end with is given, and the schema check on
-- the names of the migrations and the history of the database.
unfoldable pub lifespan :
    (owned : Bool) (opening serving : Result (Unit {0})) (names : List String)
    (history : Option (List Migration))
    → List Event × Result (Unit {0})
unfolding serve_owned check_schema
lifespan false opening serving names history = (served ∷ [], serving)
lifespan true (err e) serving names history = ([], err e)
lifespan true (ok tt) serving names history = serve_owned serving (check_schema names history)

-- An application with a store of its own serves only between the opening and the closing of the pool,
-- and only if the schema is not behind; and a pool that was opened is closed once, however it ends.
lifespan_lem :
    (opening serving : Result (Unit {0})) (names : List String) (history : Option (List Migration))
    → ((lifespan true opening serving names history).0 ≡ [])
      ⊎ ((lifespan true opening serving names history).0 ≡ opened ∷ closed ∷ [])
      ⊎ ((check_schema names history ≡ ok tt)
          × ((lifespan true opening serving names history).0 ≡ opened ∷ served ∷ closed ∷ []))
unfolding lifespan serve_owned
lifespan_lem (err e) serving names history = inl refl
lifespan_lem (ok tt) serving names history = cases (check_schema names history) refl
  where
    cases :
        (r : Result (Unit {0}))
        → check_schema names history ≡ r
        → ((serve_owned serving (check_schema names history)).0 ≡ [])
          ⊎ ((serve_owned serving (check_schema names history)).0 ≡ opened ∷ closed ∷ [])
          ⊎ ((check_schema names history ≡ ok tt)
              × ((serve_owned serving (check_schema names history)).0
                  ≡ opened ∷ served ∷ closed ∷ []))
    cases (err e) p = inr (inl (rw p refl))
    cases (ok tt) p = inr (inr (p, rw p refl))
