-- ===== src/Gating/Laws.antt =====
-- Which accounts the settings open.
use multi_cloud_platform.Prelude.{ℕ, String, ◌≡◌, true, false, ◌&&◌, List, arith, any, str_eq, ◌==◌}
use multi_cloud_platform.Gating.{
  Settings, is_allowed, is_account_scoped, is_account_allowed, denial, manual_ingest_denial,
  auto_ingest_allowed, ingest_enabled,
}

denial-closed :
    (s : Settings) (provider : String) (a : ℕ) (enabled : List String)
    → is_account_allowed s provider a ≡ false
    → is_allowed (denial s provider a enabled) ≡ false
unfolding denial
denial-closed s provider a enabled h = ground arith

-- An account of a provider whose accounts must be listed is closed, to collection by hand and daily,
-- unless the list has an entry for it; so with an empty or a misread list all of them are closed.
pub ingest_enabled-listed :
    (s : Settings) (provider : String) (a : ℕ)
    → is_account_scoped provider ≡ true
    → ingest_enabled s provider a ≡ true
    → any (λ e. str_eq e.0 provider && e.1 == a) s.cost_ingest_account_ids ≡ true
unfolding ingest_enabled manual_ingest_denial auto_ingest_allowed is_account_allowed
ingest_enabled-listed s provider a scoped open_ =
    let by_hand = denial-closed s provider a s.cost_ingest_providers in
    let daily = denial-closed s provider a s.cost_auto_ingest_providers in ground arith
