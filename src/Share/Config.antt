-- ===== src/Share/Config.antt =====
-- internal/service/sharing.go: the sharing configuration.
use flightdeck.Base.{
  ℕ, Bool, not, ◌&&◌, ◌||◌, Option, none, some, [], ◌∷◌, leb, if◌then◌else◌, ◌==◌, nat_eq,
  string_eq,
}
use mathlib.Core.List.{reverse}
use flightdeck.Base.Assoc.{lookup, set}
use flightdeck.Base.Bytes.{Bytes, codes, bytes_eq, has_prefix}
use flightdeck.Share.Rows.{Instance}
use flightdeck.Share.Client.{Net}

abbrev pub drop_while : (ℕ → Bool) → Bytes → Bytes
drop_while p [] = []
drop_while p (c ∷ s) = if p c then drop_while p s else c ∷ s

-- strings.TrimSpace on ASCII text.
abbrev pub is_space : ℕ → Bool
is_space c = c == 32 || (leb 9 c && leb c 13)

unfoldable pub trim_ascii : Bytes → Bytes
trim_ascii s = reverse (drop_while is_space (reverse (drop_while is_space s)))

-- strings.TrimRight(s, "/")
unfoldable pub trim_slashes : Bytes → Bytes
trim_slashes s = reverse (drop_while (λ c. c == 47) (reverse s))

pub record MailboxConfig : Type 0 where
  pub url : Bytes
  pub admin_token : Bytes
  pub client_cert : Bytes
  pub client_key : Bytes
  pub ca_pem : Bytes
  pub bundle_cert : Bytes
  pub bundle_key : Bytes
  pub bundle_name : Bytes
  pub bundle_fingerprint : Bytes

abbrev pub or_else : Bytes → Bytes → Bytes
or_else [] other = other
or_else (c ∷ s) other = c ∷ s

unfoldable pub normalize : MailboxConfig → MailboxConfig
unfolding trim_ascii trim_slashes
normalize c = record c {
  url = trim_slashes (trim_ascii c.url);
  client_cert = or_else c.client_cert c.bundle_cert;
  client_key = or_else c.client_key c.bundle_key;
  bundle_cert = [];
  bundle_key = [];
  bundle_name = [];
  bundle_fingerprint = [];
}

pub data ConfigError : Type 0 where
  no_url not_https no_cert no_client_key no_ca_pem bad_pair bad_ca : ConfigError

unfoldable pub configured : MailboxConfig → Bool
configured c =
    not (c.url == [])
    && not (c.client_cert == [])
    && not (c.client_key == [])
    && not (c.ca_pem == [])

-- Validate; `none` is a usable configuration.
unfoldable pub validate : Net → MailboxConfig → Option ConfigError
unfolding has_prefix
validate net c =
    if c.url == []
    then some no_url
    else if not (has_prefix c.url (codes "https://"))
    then some not_https
    else if c.client_cert == []
    then some no_cert
    else if c.client_key == []
    then some no_client_key
    else if c.ca_pem == []
    then some no_ca_pem
    else if not (net.key_pair c.client_cert c.client_key)
    then some bad_pair
    else if not (net.has_ca c.ca_pem)
    then some bad_ca
    else none

abbrev pub setting : Bytes → Instance → Bytes
setting key i = elim (lookup key i.settings) [ none ↦ [] | some v ↦ v ]

-- Service.MailboxConfig: a setting that cannot be read is "".
unfoldable pub mailbox_config : Instance → MailboxConfig
unfolding lookup trim_slashes
mailbox_config i = record {
  url = trim_slashes (setting (codes "mailbox_url") i);
  admin_token = setting (codes "mailbox_admin_token") i;
  client_cert = setting (codes "mailbox_client_cert") i;
  client_key = setting (codes "mailbox_client_key") i;
  ca_pem = setting (codes "mailbox_ca_pem") i;
  bundle_cert = [];
  bundle_key = [];
  bundle_name = [];
  bundle_fingerprint = [];
}

abbrev put_setting : Bytes → Bytes → Instance → Instance
put_setting key v i = record i { settings = set key v i.settings }

unfoldable pub set_mailbox_config : MailboxConfig → Instance → Instance
unfolding set trim_slashes
set_mailbox_config c i = put_setting (codes "mailbox_ca_pem") c.ca_pem (
    put_setting (codes "mailbox_client_key") c.client_key (
      put_setting (codes "mailbox_client_cert") c.client_cert (
        put_setting (codes "mailbox_admin_token") c.admin_token
          (put_setting (codes "mailbox_url") (trim_slashes c.url) i))))
