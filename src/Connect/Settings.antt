-- ===== src/Connect/Settings.antt =====
-- A connection's settings, checked by `clean_settings` of crm/connect/services.py.
use open_immigration_crm.Prelude.{
  List, [], ◌∷◌, Option, none, some, Bool, not, ◌&&◌, any, Text, text_eq, strip, is_empty, Result,
  ok, err, if◌then◌else◌,
}
use open_immigration_crm.Connect.Records.{SettingField, Dict}

-- The `ValidationError`s, with the label of the setting, or what its own check says.
pub data SettingError : Type 0 where
  choose_valid enter : (label : Text) → SettingError
  invalid : (message : Text) → SettingError

-- `dict.get`
unfoldable pub get : Text → Dict → Option Text
get name [] = none
get name ((key, value) ∷ rest) = if text_eq key name then some value else get name rest

unfoldable pub get_or : Text → Text → Dict → Text
unfolding get
get_or default name dict = elim (get name dict) [ none ↦ default | some value ↦ value ]

-- `dict[name] = value`
unfoldable pub put : Text → Text → Dict → Dict
put name value [] = (name, value) ∷ []
put name value ((key, old) ∷ rest) =
    if text_eq key name then (key, value) ∷ rest else (key, old) ∷ put name value rest

-- `value in dict(setting.choices)`
unfoldable pub is_choice : Text → List (Text × Text) → Bool
is_choice value choices = any (λ (c : Text × Text). text_eq c.0 value) choices

-- `setting.validate`, of a value that is not empty.
unfoldable pub complaint : SettingField → Text → Option SettingError
complaint setting value =
    if is_empty value
    then none
    else elim (setting.validate value) [ none ↦ none | some message ↦ some (invalid message) ]

-- What is wrong with a setting's value.
unfoldable pub setting_error : SettingField → Text → Option SettingError
unfolding is_choice complaint
setting_error setting value =
    if not (is_empty setting.choices) && not (is_choice value setting.choices)
    then some (choose_valid setting.label)
    else if is_empty value && setting.required && is_empty setting.choices
    then some (enter setting.label)
    else complaint setting value

unfoldable pub value_of : SettingField → Dict → Text
unfolding get_or
value_of setting config = strip (get_or setting.default setting.name config)

-- The loop of `clean_settings`. The `default` of a setting with several values is the empty list's
-- text.
unfoldable pub clean_from : Dict → List SettingField → Dict → Result SettingError Dict
unfolding get_or put setting_error value_of
clean_from config [] cleaned = ok cleaned
clean_from config (setting ∷ settings) cleaned =
    if setting.is_live
    then clean_from config settings
        (put setting.name (get_or setting.default setting.name config) cleaned)
    else elim (setting_error setting (value_of setting config)) [
      | some error ↦ err error
      | none ↦ clean_from config settings (put setting.name (value_of setting config) cleaned)
    ]

-- `clean_settings`
unfoldable pub clean_settings : List SettingField → Dict → Result SettingError Dict
unfolding clean_from
clean_settings settings config = clean_from config settings config
