-- ===== src/Settings/Ranges.antt =====
-- The settings that `ParseServerSettings` of src/CollabVM.cpp saves fit in their fields.
use collab_vm_server.Prelude.{
  ◌≤◌, ◌≡◌, ◌⊎◌, refl, sym, ap, inl, inr, subst, true, Option, none, some, List, [], ◌∷◌, Bytes,
  arith, Bool-cases,
}
use collab_vm_server.Settings.{Value, text, number, bool, Members, Token, writes_bool}
use collab_vm_server.Settings.Server.{
  Config, ServerSetting, chat_rate_count, chat_rate_time, chat_mute_time, max_connections,
  max_upload_time, ban_command, jpeg_quality, mod_enabled, mod_perms, blacklisted_usernames, Panel,
  refresh_blacklist, parse_server_settings,
}
use collab_vm_server.Settings.Checked.{
  kind_of, fits, assign, assigned, setting_of, all_fit, assign_all, errors,
  parse_server_settings-all_fit,
}
use collab_vm_server.Settings.Blacklist.{refresh_blacklist-in_use}

-- What the types of the fields hold, and a quality up to 100, or 255 for no JPEG.
pub record InRange (c : Config) : Type 0 where
  pub chat_rate_count : c.chat_rate_count ≤ 255
  pub chat_rate_time : c.chat_rate_time ≤ 255
  pub chat_mute_time : c.chat_mute_time ≤ 255
  pub max_connections : c.max_connections ≤ 255
  pub max_upload_time : c.max_upload_time ≤ 65535
  pub jpeg_quality : (c.jpeg_quality ≤ 100) ⊎ (c.jpeg_quality ≡ 255)
  pub mod_perms : c.mod_perms ≤ 65535

assign-InRange :
    (i : ServerSetting) (v : Value) (c : Config)
    → fits (kind_of i) v ≡ true
    → InRange c
    → InRange (assign i v c)
assign-InRange chat_rate_count (number n) c f h = ground arith
assign-InRange chat_rate_time (number n) c f h = ground arith
assign-InRange chat_mute_time (number n) c f h = ground arith
assign-InRange max_connections (number n) c f h = ground arith
assign-InRange max_upload_time (number n) c f h = ground arith
assign-InRange ban_command (text s) c f h = ground arith
assign-InRange jpeg_quality (number n) c f h = ground arith
assign-InRange mod_enabled (bool b) c f h = ground arith
assign-InRange mod_perms (number n) c f h = ground arith
assign-InRange blacklisted_usernames (text s) c f h = ground arith
assign-InRange i v c f h = cc

assigned-InRange :
    (o : Option ServerSetting) (v : Value) (c : Config) → InRange c → InRange (assigned o v c)
assigned-InRange none v c h = h
assigned-InRange (some i) v c h = elim (Bool-cases (fits (kind_of i) v)) [
  | inl f ↦ rw f (assign-InRange i v c f h)
  | inr f ↦ rw f h
]

assign_all-InRange : (ms : Members) (c : Config) → InRange c → InRange (assign_all ms c)
assign_all-InRange [] c h = h
assign_all-InRange ((key, v) ∷ ms) c h =
    assign_all-InRange ms (assigned (setting_of key) v c) (assigned-InRange (setting_of key) v c h)

-- Whatever members an object of settings has, reading it has a result, and where the saved settings
-- are in the ranges of their fields, those that are then saved are.
pub parse_server_settings-InRange :
    (split : Bytes → List Bytes) (written : Config → List Token) (ms : Members) (p : Panel)
    → InRange p.configuration
    → (q : Panel) × (out : List Token) × (parse_server_settings split written ms p ≡ some (q, out))
      × InRange q.configuration
parse_server_settings-InRange split written ms p h = elim (Bool-cases (all_fit ms)) [
  | inl f ↦ (
    record (refresh_blacklist split ms p) { configuration = assign_all ms p.configuration },
    writes_bool true ∷ written (assign_all ms p.configuration),
    rw (parse_server_settings-all_fit split written ms p, f) refl,
    assign_all-InRange ms p.configuration h,
  )
  | inr f ↦ (
    refresh_blacklist split ms p,
    errors ms,
    rw (parse_server_settings-all_fit split written ms p, f) refl,
    subst InRange (ap (λ (q : Panel). q.configuration) (sym (refresh_blacklist-in_use split ms p)))
        h,
  )
]
