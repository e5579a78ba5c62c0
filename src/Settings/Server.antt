-- ===== src/Settings/Server.antt =====
-- `ParseServerSettings` of src/CollabVM.cpp, without the call of `SetJPEGQuality` and the log.
use collab_vm_server.Prelude.{
  ℕ, Bool, true, false, ◌||◌, Option, none, some, List, [], ◌∷◌, ◌++◌, Bytes, codes, leb, ◌==◌,
  if◌then◌else◌,
}
use collab_vm_server.Settings.{
  Value, text, Members, Token, writes_bool, Effect, with_bool, with_text, with_number, set_members,
  find_setting,
}

-- The fields of `Config` that the panel changes.
pub record Config : Type 0 where
  pub chat_rate_count : ℕ
  pub chat_rate_time : ℕ
  pub chat_mute_time : ℕ
  pub max_connections : ℕ
  pub max_upload_time : ℕ
  pub ban_command : Bytes
  pub jpeg_quality : ℕ
  pub mod_enabled : Bool
  pub mod_perms : ℕ
  pub blacklisted_names : Bytes

pub data ServerSetting : Type 0 where
  chat_rate_count chat_rate_time chat_mute_time max_connections max_upload_time : ServerSetting
  ban_command jpeg_quality mod_enabled mod_perms blacklisted_usernames : ServerSetting

abbrev pub server_settings : List ServerSetting
server_settings =
    chat_rate_count ∷ chat_rate_time ∷ chat_mute_time ∷ max_connections ∷ max_upload_time
    ∷ ban_command ∷ jpeg_quality ∷ mod_enabled ∷ mod_perms ∷ blacklisted_usernames ∷ []

unfoldable pub server_key : ServerSetting → Bytes
server_key chat_rate_count = codes "chat-rate-count"
server_key chat_rate_time = codes "chat-rate-time"
server_key chat_mute_time = codes "chat-mute-time"
server_key max_connections = codes "max-cons"
server_key max_upload_time = codes "max-upload-time"
server_key ban_command = codes "ban-cmd"
server_key jpeg_quality = codes "jpeg-quality"
server_key mod_enabled = codes "mod-enabled"
server_key mod_perms = codes "mod-perms"
server_key blacklisted_usernames = codes "blacklisted-usernames"

abbrev too_big : Bytes
too_big = codes "Value too big"

abbrev pub is_quality : ℕ → Bool
is_quality n = leb n 100 || n == 255

-- The `switch` on the setting.
unfoldable pub set_server_setting : ServerSetting → Value → Config → Effect Config
unfolding server_key with_bool with_text with_number
set_server_setting chat_rate_count v c =
    with_number (server_key chat_rate_count) (λ n. leb n 255) too_big
      (λ n. record c { chat_rate_count = n }) v
set_server_setting chat_rate_time v c =
    with_number (server_key chat_rate_time) (λ n. leb n 255) too_big
      (λ n. record c { chat_rate_time = n }) v
set_server_setting chat_mute_time v c =
    with_number (server_key chat_mute_time) (λ n. leb n 255) too_big
      (λ n. record c { chat_mute_time = n }) v
set_server_setting max_connections v c =
    with_number (server_key max_connections) (λ n. leb n 255) too_big
      (λ n. record c { max_connections = n }) v
set_server_setting max_upload_time v c =
    with_number (server_key max_upload_time) (λ n. leb n 65535) too_big
      (λ n. record c { max_upload_time = n }) v
set_server_setting ban_command v c =
    with_text (server_key ban_command) (λ s. record c { ban_command = s }) v
set_server_setting jpeg_quality v c =
    with_number (server_key jpeg_quality) is_quality too_big (λ n. record c { jpeg_quality = n }) v
set_server_setting mod_enabled v c =
    with_bool (server_key mod_enabled) (λ b. record c { mod_enabled = b }) v
set_server_setting mod_perms v c =
    with_number (server_key mod_perms) (λ n. leb n 65535) too_big (λ n. record c { mod_perms = n })
      v
set_server_setting blacklisted_usernames v c =
    with_text (server_key blacklisted_usernames) (λ s. record c { blacklisted_names = s }) v

abbrev pub is_blacklist : Option ServerSetting → Value → Bool
is_blacklist (some blacklisted_usernames) (text s) = true
is_blacklist _ _ = false

-- What the server holds of it: the saved settings, and the list of names that is in use.
pub record Panel : Type 0 where
  pub configuration : Config
  pub blacklisted : List Bytes

-- `split` is `boost::split` at the semicolons. The list is split from the saved settings.
module _ (split : Bytes → List Bytes) where
  unfoldable pub refresh_blacklist : Members → Panel → Panel
  unfolding find_setting
  refresh_blacklist [] p = p
  refresh_blacklist ((key, v) ∷ ms) p = refresh_blacklist ms (
      if is_blacklist (find_setting server_key key server_settings) v
      then record p { blacklisted = split p.configuration.blacklisted_names }
      else p)

  -- The settings are saved if all were valid. `written` is what `WriteServerSettings` writes.
  unfoldable pub parse_server_settings :
      (Config → List Token) → Members → Panel → Option (Panel × List Token)
  unfolding set_members set_server_setting refresh_blacklist
  parse_server_settings written ms p =
      let refreshed = refresh_blacklist ms p in
      elim (set_members server_key server_settings set_server_setting ms
        (p.configuration, true, [])) [
          | none ↦ none
          | some (c, valid, out) ↦ some (
              if valid
              then (record refreshed { configuration = c }, out ++ writes_bool true ∷ written c)
              else (refreshed, out))
        ]
