-- ===== src/Server/Managed/Provider.antt =====
-- crates/sovereign-config-identity/src/lib.rs: the identity provider that the service works with.
pub mod Contract
use sovereign_config.Prelude.{
  ℕ, zero, suc, ◌+◌, ◌-◌, ◌*◌, ◌/◌, ◌%◌, ◌^◌, ◌≤◌, ◌<◌, min, max, String, ◌≡◌, refl, sym, ap, ◌∙◌,
  subst, ◌≡⟨◌⟩◌, ◌∎, ◌≢◌, ◌↔◌, ◌⊎◌, inl, inr, Bool, true, false, not, ◌&&◌, ◌||◌, Option, none,
  some, List, [], ◌∷◌, ◌++◌, map, append_assoc, append-nil, arith, ltb, leb, ◌==◌, if◌then◌else◌,
  ==_iff, Bool-cases, Option-cases, is_some, is_none, get_or, All, Any, here, ok, err, there,
  length, is_empty, take, drop, get_elem?, all, any, keep_if, length-append, length-take-le,
  take-append_length, drop-append_length, take-append-drop, all-append, all_iff, any_sound,
  any_complete, any-not, All-append, All-left, All-right, All-keep_if, All-map_of, insert_by,
  sort_by, find, filter_map, All-sort_by, All-filter_map, Text, codes, slash, text_eq, text_eq_refl,
  text_eq_sound, text_eq_iff, lower, fold, eq_ignore_ascii_case, strip_prefix, starts_with,
  contains, extend_head, split, trim_start_matches, join, rsplit_once, is_ascii_lowercase,
  is_ascii_uppercase, is_ascii_alphabetic, is_ascii_digit, is_control, concat, decimal_digits,
  decimal, text_le, Result, ok_or, map_err, is_ok, map_err-eq-ok, ok_or-eq-ok, Result-cases,
  lower_idem, lower-eq_slash, fold_idem, fold-append, length-fold, strip_prefix-append,
  strip_prefix_sound, starts_with-append, starts_with_sound, extend_head-map-fold, split-fold,
  split-ne-nil, join-split, split_part, split-append, split_free, contains-append,
}

pub data ProviderError : Type 0 where
  not_found rejected unavailable ambiguous invalid : ProviderError

abbrev pub max_identifier_chars : ℕ
max_identifier_chars = 128

-- The bytes of a text in UTF-8.
unfoldable pub utf8_len : Text → ℕ
utf8_len [] = 0
utf8_len (c ∷ s) =
    (if ltb c 128 then 1 else if ltb c 2048 then 2 else if ltb c 65536 then 3 else 4) + utf8_len s

-- `bounded`, and with it `AccountId::parse` and `CredentialId::parse`
unfoldable pub bounded : Text → Option Text
unfolding utf8_len any
bounded value =
    if is_empty value || ltb max_identifier_chars (utf8_len value) || any is_control value
    then none
    else some value

abbrev pub AccountId : Type 0
AccountId = Text

abbrev pub CredentialId : Type 0
CredentialId = Text

pub record ClientCredential : Type 0 where
  pub client_id : Text
  pub secret : Text

pub record ProvisionedAccount : Type 0 where
  pub account : AccountId
  pub subject : Text
  pub credential : ClientCredential

pub record AccountGrant : Type 0 where
  pub connection_id : Text
  pub display_name : Text
  pub root : Text
  pub permissions : List Text

-- What a call on the provider answers, and the provider after it.
abbrev pub Answer : Type 0 → Type 0 → Type 0
Answer P A = Result ProviderError A × P

-- The trait `ManagedIdentityProvider`, over a provider whose own state is a `P`.
pub record ManagedIdentityProvider (P : Type 0) : Type 0 where
  pub create_account : Text → P → Answer P ProvisionedAccount
  pub grant : AccountId → AccountGrant → P → Answer P (Unit {0})
  pub assign_browse_group : AccountId → P → Answer P (Unit {0})
  pub rename_account : AccountId → Text → P → Answer P (Unit {0})
  pub find_account : Text → P → Answer P (Option AccountId)
  pub find_credentials : Text → P → Answer P (List CredentialId)
  pub replace_credential : CredentialId → P → Answer P ClientCredential
  pub delete_account : AccountId → P → Answer P (Unit {0})
