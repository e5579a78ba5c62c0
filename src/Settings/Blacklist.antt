-- ===== src/Settings/Blacklist.antt =====
-- Which blacklisted usernames are in use after `ParseServerSettings` of src/CollabVM.cpp.
use collab_vm_server.Prelude.{
  ◌≡◌, ◌∙◌, refl, ap, inl, inr, Bool, true, false, ◌||◌, some, List, [], ◌∷◌, Bytes, arith,
  if◌then◌else◌, Bool-cases,
}
use collab_vm_server.Settings.{Members, Token, writes_bool}
use collab_vm_server.Settings.Server.{
  Config, Panel, is_blacklist, refresh_blacklist, parse_server_settings,
}
use collab_vm_server.Settings.Checked.{
  setting_of, all_fit, assign_all, errors, parse_server_settings-all_fit,
}

-- Whether a member sets the blacklisted usernames to a text.
abbrev pub sets_blacklist : Members → Bool
sets_blacklist [] = false
sets_blacklist ((key, v) ∷ ms) = is_blacklist (setting_of key) v || sets_blacklist ms

abbrev pub in_use : (Bytes → List Bytes) → Members → Panel → List Bytes
in_use split ms p =
    if sets_blacklist ms then split p.configuration.blacklisted_names else p.blacklisted

pub refresh_blacklist-in_use :
    (split : Bytes → List Bytes) (ms : Members) (p : Panel)
    → refresh_blacklist split ms p ≡ record p { blacklisted = in_use split ms p }
unfolding refresh_blacklist
refresh_blacklist-in_use split [] p = refl
refresh_blacklist-in_use split ((key, v) ∷ ms) p =
    elim (Bool-cases (is_blacklist (setting_of key) v)) [
      | inl b ↦ rw b (
          refresh_blacklist-in_use split ms
            (record p { blacklisted = split p.configuration.blacklisted_names })
          ∙ ap (λ (l : List Bytes). record p { blacklisted = l }) (ground arith))
      | inr b ↦ rw b (refresh_blacklist-in_use split ms p)
    ]

-- Reading an object of settings has a result, whatever its members. If one of them sets the
-- blacklisted usernames to a text, the names in use are then those of the text that was saved
-- before, also where the new text is saved and where nothing is; otherwise they are as they were.
pub parse_server_settings-in_use :
    (split : Bytes → List Bytes) (written : Config → List Token) (ms : Members) (p : Panel)
    → (q : Panel) × (out : List Token) × (parse_server_settings split written ms p ≡ some (q, out))
      × (q.blacklisted ≡ in_use split ms p)
parse_server_settings-in_use split written ms p =
    let kept = ap (λ (q : Panel). q.blacklisted) (refresh_blacklist-in_use split ms p) in
    elim (Bool-cases (all_fit ms)) [
      | inl f ↦ (
        record (refresh_blacklist split ms p) { configuration = assign_all ms p.configuration },
        writes_bool true ∷ written (assign_all ms p.configuration),
        rw (parse_server_settings-all_fit split written ms p, f) refl,
        kept,
      )
      | inr f ↦ (
        refresh_blacklist split ms p,
        errors ms,
        rw (parse_server_settings-all_fit split written ms p, f) refl,
        kept,
      )
    ]
