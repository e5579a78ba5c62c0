-- ===== src/Settings/Checked.antt =====
-- `ParseServerSettings` of src/CollabVM.cpp saves all of the settings that it is given, or none.
use collab_vm_server.Prelude.{
  ◌≡◌, ◌∙◌, sym, refl, ap, inl, inr, Bool, true, false, ◌&&◌, ◌||◌, Option, none, some, List, [],
  ◌∷◌, ◌++◌, Bytes, codes, arith, leb, ◌==◌, if◌then◌else◌, append_assoc, append-nil, Bool-cases,
}
use collab_vm_server.Settings.{
  Value, text, number, bool, Members, Token, writes_bool, Effect, sets, fails, apply_effect,
  find_setting, set_member, set_members, Progress, write_json_object,
}
use collab_vm_server.Settings.Server.{
  Config, ServerSetting, chat_rate_count, chat_rate_time, chat_mute_time, max_connections,
  max_upload_time, ban_command, jpeg_quality, mod_enabled, mod_perms, blacklisted_usernames,
  server_settings, server_key, set_server_setting, Panel, refresh_blacklist, parse_server_settings,
}

-- What the value of a setting has to be.
pub data Kind : Type 0 where
  byte short quality flag string : Kind

abbrev pub kind_of : ServerSetting → Kind
kind_of chat_rate_count = byte
kind_of chat_rate_time = byte
kind_of chat_mute_time = byte
kind_of max_connections = byte
kind_of max_upload_time = short
kind_of ban_command = string
kind_of jpeg_quality = quality
kind_of mod_enabled = flag
kind_of mod_perms = short
kind_of blacklisted_usernames = string

abbrev pub fits : Kind → Value → Bool
fits byte (number n) = leb n 255
fits short (number n) = leb n 65535
fits quality (number n) = leb n 100 || n == 255
fits flag (bool b) = true
fits string (text s) = true
fits _ _ = false

-- The message of an error: a number that is too big, or a value of another type.
abbrev is_number : Kind → Bool
is_number flag = false
is_number string = false
is_number _ = true

abbrev pub complaint : Kind → Value → Bytes
complaint k (number n) = if is_number k then codes "Value too big" else codes "Invalid object type"
complaint k _ = codes "Invalid object type"

-- The assignment of a value that fits.
abbrev pub assign : ServerSetting → Value → Config → Config
assign chat_rate_count (number n) c = record c { chat_rate_count = n }
assign chat_rate_time (number n) c = record c { chat_rate_time = n }
assign chat_mute_time (number n) c = record c { chat_mute_time = n }
assign max_connections (number n) c = record c { max_connections = n }
assign max_upload_time (number n) c = record c { max_upload_time = n }
assign ban_command (text s) c = record c { ban_command = s }
assign jpeg_quality (number n) c = record c { jpeg_quality = n }
assign mod_enabled (bool b) c = record c { mod_enabled = b }
assign mod_perms (number n) c = record c { mod_perms = n }
assign blacklisted_usernames (text s) c = record c { blacklisted_names = s }
assign _ _ c = c

effect_lem :
    (i : ServerSetting) (v : Value) (c : Config)
    → set_server_setting i v c ≡ (
        if fits (kind_of i) v
        then sets (assign i v c)
        else fails (server_key i) (complaint (kind_of i) v))
unfolding set_server_setting
effect_lem chat_rate_count (number n) c = refl
effect_lem chat_rate_time (number n) c = refl
effect_lem chat_mute_time (number n) c = refl
effect_lem max_connections (number n) c = refl
effect_lem max_upload_time (number n) c = refl
effect_lem ban_command (text s) c = refl
effect_lem jpeg_quality (number n) c = refl
effect_lem mod_enabled (bool b) c = refl
effect_lem mod_perms (number n) c = refl
effect_lem blacklisted_usernames (text s) c = refl
effect_lem i v c = refl

-- What one member does: with another key nothing, with a setting's key and a value that fits its
-- assignment, and otherwise an error.
abbrev pub is_fit : Option ServerSetting → Value → Bool
is_fit none v = true
is_fit (some i) v = fits (kind_of i) v

abbrev pub assigned : Option ServerSetting → Value → Config → Config
assigned none v c = c
assigned (some i) v c = if fits (kind_of i) v then assign i v c else c

abbrev pub error_of : Option ServerSetting → Value → List Token
error_of none v = []
error_of (some i) v =
    if fits (kind_of i) v then [] else write_json_object (server_key i) (complaint (kind_of i) v)

abbrev pub setting_of : Bytes → Option ServerSetting
setting_of key = find_setting server_key key server_settings

abbrev pub all_fit : Members → Bool
all_fit [] = true
all_fit ((key, v) ∷ ms) = is_fit (setting_of key) v && all_fit ms

abbrev pub assign_all : Members → Config → Config
assign_all [] c = c
assign_all ((key, v) ∷ ms) c = assign_all ms (assigned (setting_of key) v c)

abbrev pub errors : Members → List Token
errors [] = []
errors ((key, v) ∷ ms) = error_of (setting_of key) v ++ errors ms

read_all : Members → Progress Config → Option (Progress Config)
read_all = set_members server_key server_settings set_server_setting

apply_one : Option ServerSetting → Value → Progress Config → Option (Progress Config)
apply_one o v p = elim o [ none ↦ some p | some i ↦ apply_effect (set_server_setting i v p.0) p ]

same_progress :
    {c c' : Config} {valid valid' : Bool} {out out' : List Token}
    → c ≡ c'
    → valid ≡ valid'
    → out ≡ out'
    → ◌≡◌ {A = Option (Progress Config)} (some (c, valid, out)) (some (c', valid', out'))
same_progress p q r = λ i. some (p i, q i, r i)

apply_one-some :
    (o : Option ServerSetting) (v : Value) (c : Config) (valid : Bool) (out : List Token)
    → apply_one o v (c, valid, out)
      ≡ some (assigned o v c, valid && is_fit o v, out ++ error_of o v)
unfolding apply_one apply_effect
apply_one-some none v c valid out = same_progress refl (ground arith) (sym (append-nil out))
apply_one-some (some i) v c valid out = elim (Bool-cases (fits (kind_of i) v)) [
  | inl f ↦
      ap (λ (e : Effect Config). apply_effect e (c, valid, out)) (effect_lem i v c)
      ∙ rw f (same_progress refl (ground arith) (sym (append-nil out)))
  | inr f ↦
      ap (λ (e : Effect Config). apply_effect e (c, valid, out)) (effect_lem i v c)
      ∙ rw f (same_progress refl (ground arith) refl)
]

next : Members → Option (Progress Config) → Option (Progress Config)
next ms r = elim r [ none ↦ none | some p ↦ read_all ms p ]

read_all-next :
    (key : Bytes) (v : Value) (ms : Members) (p : Progress Config)
    → read_all ((key, v) ∷ ms) p ≡ next ms (apply_one (setting_of key) v p)
unfolding read_all set_members set_member apply_one next
read_all-next key v ms (c, valid, out) = refl

-- The settings read, whether all fit, and the errors, in order.
read_all-some :
    (ms : Members) (c : Config) (valid : Bool) (out : List Token)
    → read_all ms (c, valid, out) ≡ some (assign_all ms c, valid && all_fit ms, out ++ errors ms)
unfolding read_all set_members next
read_all-some [] c valid out = same_progress refl (ground arith) (sym (append-nil out))
read_all-some ((key, v) ∷ ms) c valid out =
    let o : Option ServerSetting = setting_of key in
    read_all-next key v ms (c, valid, out)
    ∙ (ap (next ms) (apply_one-some o v c valid out)
        ∙ (read_all-some ms (assigned o v c) (valid && is_fit o v) (out ++ error_of o v)
            ∙ same_progress refl (ground arith) (append_assoc out (error_of o v) (errors ms))))

error_of-fit : (o : Option ServerSetting) (v : Value) → is_fit o v ≡ true → error_of o v ≡ []
error_of-fit none v h = refl
error_of-fit (some i) v h =
    ap (λ (b : Bool). if b then [] else write_json_object (server_key i) (complaint (kind_of i) v))
      h

errors-fit : (ms : Members) → all_fit ms ≡ true → errors ms ≡ []
errors-fit [] h = refl
errors-fit ((key, v) ∷ ms) h = ground (arith, error_of-fit (setting_of key) v, errors-fit ms)

-- The end of the function.
abbrev finish : (Config → List Token) → Panel → Progress Config → Panel × List Token
finish written p (c, valid, out) =
    if valid
    then (record p { configuration = c }, out ++ writes_bool true ∷ written c)
    else (p, out)

finish-fit :
    (written : Config → List Token) (p : Panel) (c : Config) (ms : Members)
    → finish written p (c, all_fit ms, errors ms) ≡ (
        if all_fit ms
        then (record p { configuration = c }, writes_bool true ∷ written c)
        else (p, errors ms))
finish-fit written p c ms = elim (Bool-cases (all_fit ms)) [
  | inl f ↦ rw f (
      ap
        (λ (out : List Token).
          (record p { configuration = c }, out ++ writes_bool true ∷ written c))
        (errors-fit ms f))
  | inr f ↦ rw f refl
]

-- Settings are saved all or none. If each member whose key is a setting's has a value of the
-- setting's type and range, all are assigned and saved, and `true` and the settings are written.
-- Otherwise the saved settings stay as they are, and what is written is one error for each member
-- that does not fit, in order: that a number is too big, or that the type is invalid.
pub parse_server_settings-all_fit :
    (split : Bytes → List Bytes) (written : Config → List Token) (ms : Members) (p : Panel)
    → parse_server_settings split written ms p
      ≡ some (
          if all_fit ms
          then (
            record (refresh_blacklist split ms p) { configuration = assign_all ms p.configuration },
            writes_bool true ∷ written (assign_all ms p.configuration),
          )
          else (refresh_blacklist split ms p, errors ms))
unfolding parse_server_settings read_all
parse_server_settings-all_fit split written ms p =
    let refreshed = refresh_blacklist split ms p in
    ap
      (λ (r : Option (Progress Config)). elim r [
        | none ↦ none
        | some (c, valid, out) ↦ some (
            if valid
            then (record refreshed { configuration = c }, out ++ writes_bool true ∷ written c)
            else (refreshed, out))
      ])
      (read_all-some ms p.configuration true [])
    ∙ ap (λ (r : Panel × List Token). some r)
        (finish-fit written refreshed (assign_all ms p.configuration) ms)
