-- ===== src/Conf/Tests.antt =====
-- A file of two settings.
use tox_suite.Base.{◌≡◌, refl, some, List, [], ◌∷◌, arith}
use tox_suite.Base.Decimal.{decimal}
use tox_suite.Base.Texts.{codes}
use tox_suite.Conf.{get_conf_str}
use tox_suite.Conf.Lookup.{Setting, IsSetting, conf_text, lookup, get_conf_str-lookup}

abbrev two_settings : List Setting
two_settings = (codes "name", codes "bot") ∷ (codes "port", codes "44") ∷ []

name-IsSetting : IsSetting (codes "name") (codes "bot")
name-IsSetting = record {
  key_text = omega arith;
  key_equals = omega arith;
  key_newline = omega arith;
  key_hash = refl;
  key_ne = λ e. ground (arith, e);
  value_text = omega arith;
  value_newline = omega arith;
  value_ne = λ e. ground (arith, e);
  fits = omega arith;
}

port-IsSetting : IsSetting (codes "port") (codes "44")
port-IsSetting = record {
  key_text = omega arith;
  key_equals = omega arith;
  key_newline = omega arith;
  key_hash = refl;
  key_ne = λ e. ground (arith, e);
  value_text = omega arith;
  value_newline = omega arith;
  value_ne = λ e. ground (arith, e);
  fits = omega arith;
}

get_conf_str-lookup_example :
    get_conf_str (some (conf_text two_settings)) (codes "port") ≡ some (codes "44")
get_conf_str-lookup_example =
    get_conf_str-lookup (codes "port") two_settings (name-IsSetting, (port-IsSetting, tt))

port-lookup : lookup (codes "port") two_settings ≡ some (decimal 44)
unfolding decimal
port-lookup = refl
