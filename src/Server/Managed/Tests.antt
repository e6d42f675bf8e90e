-- ===== src/Server/Managed/Tests.antt =====
-- A small identity provider and a small `url` crate, and that the provider honours its contract.
pub mod Late
pub mod Witnesses
use sovereign_config.Prelude.{
  ℕ, zero, suc, ◌+◌, ◌-◌, ◌*◌, ◌/◌, ◌%◌, ◌^◌, ◌≤◌, ◌<◌, min, max, String, ◌≡◌, refl, sym, ap, ◌∙◌,
  subst, ◌≡⟨◌⟩◌, ◌∎, ◌≢◌, ◌↔◌, ◌⊎◌, inl, inr, Bool, true, false, not, ◌&&◌, ◌||◌, Option, none,
  some, List, [], ◌∷◌, ◌++◌, map, append_assoc, append-nil, arith, ltb, leb, ◌==◌, if◌then◌else◌,
  ==_iff, Bool-cases, Option-cases, is_some, is_none, get_or, All, Any, here, ok, err, there,
  length, is_empty, take, drop, get_elem?, all, any, keep_if, length-append, length-take-le,
  take-append_length, drop-append_length, take-append-drop, all-append, all_iff, any_sound,
  any_complete, any-not, All-append, All-left, All-right, All-keep_if, All-map_of, insert_by,
  sort_by, find, filter_map, All-sort_by, All-filter_map, Text, codes, slash, text_eq, text_eq_refl,
  text_eq_sound, text_eq_iff, lower, fold, eq_ignore_ascii_case, strip_prefix, starts_with,
  contains, extend_head, split, trim_start_matches, join, rsplit_once, is_ascii_lowercase,
  is_ascii_uppercase, is_ascii_alphabetic, is_ascii_digit, is_control, concat, decimal_digits,
  decimal, text_le, Result, ok_or, map_err, is_ok, map_err-eq-ok, ok_or-eq-ok, Result-cases,
  lower_idem, lower-eq_slash, fold_idem, fold-append, length-fold, strip_prefix-append,
  strip_prefix_sound, starts_with-append, starts_with_sound, extend_head-map-fold, split-fold,
  split-ne-nil, join-split, split_part, split-append, split_free, contains-append,
}
use sovereign_config.Core.Connection.{Url, UrlCrates}
use sovereign_config.Server.Auth.{AuthenticatedPrincipal}
use sovereign_config.Server.Auth
use sovereign_config.Server.Rpc.{CallContext}
use sovereign_config.Server.Managed.Provider.{
  ProviderError, AccountId, CredentialId, AccountGrant, ProvisionedAccount, Answer,
  ClientCredential, ManagedIdentityProvider,
}
use sovereign_config.Server.Managed.Provider
use sovereign_config.Server.Managed.Provider.Contract.{Contract}
use sovereign_config.Server.Managed.Exec.{World, Tables, ConnectionRow}
use sovereign_config.Server.Managed.Provisioning.{ManagedConnectionsService}

-- The provider's accounts, by username; an account and its credential are called like it.
abbrev pub Accounts : Type 0
Accounts = List Text

abbrev pub has : Text → Accounts → Bool
has u accounts = any (λ v. text_eq v u) accounts

abbrev pub credential : ClientCredential
credential = record { client_id = codes "c"; secret = codes "s" }

-- Every call succeeds but the grant, which is refused.
abbrev pub small_provider : ManagedIdentityProvider Accounts
small_provider = record {
  create_account =
      λ u p. (ok (record { account = u; subject = u; credential = credential }), u ∷ p);
  grant = λ a g p. (err Provider.rejected, p);
  assign_browse_group = λ a p. (ok tt, p);
  rename_account = λ a name p. (ok tt, p);
  find_account = λ u p. (ok (if has u p then some u else none), p);
  find_credentials = λ u p. (ok (if has u p then u ∷ [] else []), p);
  replace_credential = λ c p. (ok credential, p);
  delete_account = λ a p. (ok tt, keep_if (λ v. not (text_eq v a)) p);
}

abbrev pub Live : Text → Accounts → Type 0
Live u p = has u p ≡ true

abbrev pub Owns : AccountId → Text → Type 0
Owns a u = a ≡ u

pub has-keep_if :
    (a u : Text) (p : Accounts) → has u (keep_if (λ v. not (text_eq v a)) p) ≡ true → has u p ≡ true
unfolding any keep_if
has-keep_if a u [] h = h
has-keep_if a u (v ∷ p) h = ground (arith, has-keep_if a u p)

pub has-deleted : (a : Text) (p : Accounts) → has a (keep_if (λ v. not (text_eq v a)) p) ≡ false
unfolding any keep_if
has-deleted a [] = refl
has-deleted a (v ∷ p) = ground (arith, has-deleted a p)

pub has-create : (u v : Text) (p : Accounts) → has v (u ∷ p) ≡ true → (has v p ≡ true) ⊎ (v ≡ u)
unfolding any
has-create u v p h = elim (Bool-cases (text_eq u v)) [
  | inl e ↦ inr (sym (text_eq_sound u v e))
  | inr e ↦ inl (ground arith)
]

pub found_name :
    (b : Bool) (u a : Text)
    → ◌≡◌ {A = Result ProviderError (Option Text)} (ok (if b then some u else none)) (ok (some a))
    → a ≡ u
found_name true u a h = cc
found_name false u a h = absurd (cc)

none_here :
    (b : Bool) (u : Text)
    → ◌≡◌ {A = Result ProviderError (List Text)} (ok (if b then u ∷ [] else [])) (ok [])
    → b ≡ false
none_here true u h = absurd (cc)
none_here false u h = refl

pub small_provider-Contract : Contract small_provider Live Owns
small_provider-Contract = record {
  none_left = λ u p h live. cc (none_here (has u p) u h, live);
  deleted = λ a p u h owns live. cc (
    has-deleted a p,
    subst (λ (t : Text). Live t (keep_if (λ v. not (text_eq v a)) p)) (sym owns) live,
  );
}

-- Every text is a URL of the host `h`, and every list of pairs is written alike.
abbrev small_url : Text → Url
small_url text = record {
  scheme = codes "https";
  host_str = some (codes "h");
  username = [];
  password = none;
  query = none;
  fragment = elim text [
    | [] ↦ none
    | h ∷ rest ↦ if contains rest b'#' then some (codes "f") else none
  ];
  path = codes "/";
  as_str = text;
  origin = codes "h";
}

abbrev pub small_urls : UrlCrates
small_urls = record {
  parse_url = λ text. some (small_url text);
  is_loopback = λ text. false;
  parse_pairs = λ fragment.
      (codes "v", codes "1")
      ∷ ((codes "issuer", codes "/")
          ∷ ((codes "client_id", codes "c") ∷ ((codes "client_secret", codes "x") ∷ [])));
  write_pairs = λ pairs. codes "f";
  url_safe_encode = λ bytes. codes "x";
  url_safe_decode = λ text. some (codes "u:p");
  standard_encode = λ bytes. bytes;
  from_utf8 = λ bytes. some bytes;
  to_utf8 = λ text. text;
}

abbrev pub service : ManagedConnectionsService Accounts
service = record {
  provider = small_provider;
  urls = small_urls;
  sha256 = λ t. codes "aaaaaaaaaaaaaaaaaaaaaaaaaaaaaaaaaaaaaaaaaaaaaaaaaaaaaaaaaaaaaaaa";
  coalesce_window = 60;
  public_origin = codes "h";
  issuer = codes "/";
  rotation_lease = 60;
}

abbrev pub caller : AuthenticatedPrincipal
caller = record {
  subject = codes "subject";
  name = some (codes "ann");
  grants = record { prefix = codes "/"; permissions = Auth.read ∷ (Auth.manage ∷ []) } ∷ [];
}

abbrev pub manager : CallContext
manager = record { principal = some caller; protocol_version = some (codes "v5") }

abbrev pub id : Text
id = codes "abcdefghijklmnop"

abbrev pub row : Text → ConnectionRow
row state = record {
  connection_id = codes "abcdefghijklmnop";
  display_name = codes "Build";
  root = codes "/";
  provider_user_id = some (codes "sc-managed-build-abcdefghijklmnop");
  provider_user_uid = none;
  credential_identifier = some (codes "k");
  state = state;
  permissions = codes "read";
  created_at = 0;
  updated_at = 0;
}

abbrev pub world : List ConnectionRow → Accounts → World Accounts
world rows accounts = record {
  committed = record { connections = rows; events = [] };
  working = record { connections = []; events = [] };
  provider = accounts;
  now = 5000000000;
  others = [];
  faults = [];
  entropy = codes "abcdefghijklmnopqrstuvwxyzabcdefghijklmnopqrstuvwxyzabcdefghijkl" ∷ [];
}
