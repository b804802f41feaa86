-- ===== src/Cli/Received.antt =====
-- Which redirect the loopback receiver of src/cimd_proxy/pat_cli.py keeps.
use cimd_proxy.Prelude.{
  ℕ, suc, String, ◌≡◌, refl, ap, none, some, List, [], ◌∷◌, ◌==◌, if◌then◌else◌, eqb, inl, inr,
  Bool-cases, keep, length, is_empty,
}
use cimd_proxy.Prelude.Dict.{Dict}
use cimd_proxy.Url.{SplitResult}
use cimd_proxy.Cli.Receiver.{Received, callback_path, accept, params_of, do_get, serve}

module _ (parse_qs : String → Dict (String × List String)) where
  -- The requests at the callback path.
  abbrev pub at_callback : List SplitResult → List SplitResult
  at_callback = keep (λ (p : SplitResult). p.path == callback_path)

  abbrev pub first_params : List SplitResult → Received
  first_params [] = none
  first_params (p ∷ ps) = some (params_of parse_qs p)

  -- How many requests are told that the sign-in has been received.
  abbrev pub told : List ℕ → ℕ
  told statuses = length (keep (eqb 200) statuses)

  serve_kept :
      (kept : Dict String) (ps : List SplitResult)
      → ((serve parse_qs (some kept) ps).1 ≡ some kept)
        × (told (serve parse_qs (some kept) ps).0 ≡ 0)
  unfolding serve do_get accept
  serve_kept kept [] = (refl, refl)
  serve_kept kept (p ∷ ps) =
      let (last, none_told) = serve_kept kept ps in
      elim (Bool-cases (p.path == callback_path)) [
        | inl there ↦ rw there (last, none_told)
        | inr elsewhere ↦ rw elsewhere (last, none_told)
      ]

  -- However many requests reach the loopback server, the parameters that the sign-in goes on with are
  -- those of the first request at the callback path, and this one alone is answered with 200.
  pub serve_first :
      (ps : List SplitResult)
      → ((serve parse_qs none ps).1 ≡ first_params (at_callback ps))
        × (told (serve parse_qs none ps).0 ≡ (if is_empty (at_callback ps) then 0 else 1))
  unfolding serve do_get accept
  serve_first [] = (refl, refl)
  serve_first (p ∷ ps) = elim (Bool-cases (p.path == callback_path)) [
    | inl there ↦
        let (last, none_told) = serve_kept (params_of parse_qs p) ps in
        rw there (last, ap (λ n. suc n) none_told)
    | inr elsewhere ↦ let (last, one) = serve_first ps in rw elsewhere (last, one)
  ]
