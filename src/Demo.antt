-- ===== src/Demo.antt =====
-- The keys that the demo starts with (src/demo.rs). An instant is moved by adding to it: that this
-- leaves the range of the `jiff` crate, where the source would panic, is not modelled.
pub mod Coherent
mod Examples
use you_spin_me.Prelude.{
  ℕ, ◌*◌, Bool, true, false, Option, none, some, is_some, List, [], ◌∷◌, ◌++◌, map, map_option,
  is_nil, if◌then◌else◌, Bytes, codes, ℤ, pos, ◌+ℤ◌, ◌-ℤ◌,
}
use you_spin_me.Time.{Timestamp, SignedDuration, Jiff}
use you_spin_me.Crd.{
  Provider, github, cloudflare, generic, TargetSpec, target_reference, ApiKeyStatus, empty_status,
  ExpirySource, manual, unset, TargetStatus, succeeded, failed, rotated, recorded, Actor, ApiKey,
}

abbrev pub days : Jiff → ℕ → SignedDuration
days jiff n = jiff.from_secs (pos (24 * n * 3600))

abbrev pub target : Bytes → Bytes → TargetSpec
target path key = record {
  openbao = some (record { mount = codes "secret"; path = path; key = key });
}

pub record Sample : Type 0 where
  pub name : Bytes
  pub display : Bytes
  pub provider : Provider
  pub renew : Bytes
  pub permissions : List Bytes
  pub max_age : Option Bytes
  pub targets : List TargetSpec
  pub consumers : List Bytes
  pub rotated_days_ago : Option ℕ
  pub expires_in_days : Option ℕ
  pub target_failed : Bool

-- An en dash, and an arrow to the right.
abbrev en_dash : Bytes
en_dash = 0xe2 ∷ 0x80 ∷ 0x93 ∷ []

abbrev arrow : Bytes
arrow = 0xe2 ∷ 0x86 ∷ 0x92 ∷ []

abbrev dashed : Bytes → Bytes → Bytes
dashed a b = a ++ (codes " " ++ (en_dash ++ (codes " " ++ b)))

abbrev pub samples : List Sample
samples =
    record {
      name = codes "renovate-github";
      display = dashed (codes "Renovate") (codes "GitHub token");
      provider = github;
      renew = codes "https://github.com/settings/personal-access-tokens";
      permissions =
          codes "contents: read" ∷ codes "pull_requests: write" ∷ codes "workflows: write" ∷ [];
      max_age = some (codes "90d");
      targets = target (codes "ci/renovate") (codes "token") ∷ [];
      consumers = codes "GitHub Actions secret RENOVATE_TOKEN in infra repo" ∷ [];
      rotated_days_ago = some 80;
      expires_in_days = some 10;
      target_failed = false;
    }
    ∷ record {
      name = codes "cloudflare-ddns";
      display = dashed (codes "Cloudflare") (codes "DDNS");
      provider = cloudflare;
      renew = codes "https://dash.cloudflare.com/profile/api-tokens";
      permissions = codes "Zone.DNS: edit" ∷ [];
      max_age = none;
      targets = [];
      consumers = (codes "Router web UI " ++ (arrow ++ codes " Dynamic DNS")) ∷ [];
      rotated_days_ago = some 360;
      expires_in_days = some 3;
      target_failed = false;
    }
    ∷ record {
      name = codes "openai-homeassistant";
      display = dashed (codes "OpenAI") (codes "Home Assistant");
      provider = generic;
      renew = codes "https://platform.openai.com/api-keys";
      permissions = codes "project: home-assistant" ∷ codes "models: read" ∷ [];
      max_age = some (codes "180d");
      targets = target (codes "home/home-assistant") (codes "openai_api_key") ∷ [];
      consumers = [];
      rotated_days_ago = some 20;
      expires_in_days = none;
      target_failed = false;
    }
    ∷ record {
      name = codes "hetzner-backups";
      display = dashed (codes "Hetzner") (codes "backup box");
      provider = generic;
      renew = codes "https://console.hetzner.cloud/";
      permissions = codes "read & write" ∷ [];
      max_age = some (codes "365d");
      targets = target (codes "backups/restic") (codes "hcloud_token") ∷ [];
      consumers = [];
      rotated_days_ago = some 370;
      expires_in_days = none;
      target_failed = true;
    }
    ∷ record {
      name = codes "tailscale-authkey";
      display = dashed (codes "Tailscale") (codes "auth key");
      provider = generic;
      renew = codes "https://login.tailscale.com/admin/settings/keys";
      permissions = codes "reusable" ∷ codes "tag:k8s" ∷ [];
      max_age = some (codes "90d");
      targets = target (codes "net/tailscale") (codes "authkey") ∷ [];
      consumers = [];
      rotated_days_ago = none;
      expires_in_days = none;
      target_failed = false;
    }
    ∷ []

abbrev pub david : Actor
david = record { sub = codes "demo|david"; name = codes "david" }

abbrev pub source_of : Option Timestamp → ExpirySource
source_of expires = if is_some expires then manual else unset

abbrev pub sample_status : Bool → Timestamp → TargetSpec → TargetStatus
sample_status target_failed at t = record {
  reference = target_reference t;
  last_written = some at;
  result = if target_failed then failed else succeeded;
  message = if target_failed then some (codes "OpenBao returned 403: permission denied") else none;
}

-- The status of a sample that was rotated at `at`.
unfoldable pub status_of : Sample → Timestamp → Option Timestamp → ApiKeyStatus
status_of s at expires = record empty_status {
  last_rotated = some at;
  rotated_by = some david;
  expires_at_source = some (source_of expires);
  manual_expires_at = expires;
  expires_at = expires;
  targets = map (sample_status s.target_failed at) s.targets;
  history =
      record {
        at = at;
        by = david;
        kind = if is_nil s.targets then recorded else rotated;
        expires_at = expires;
      }
      ∷ [];
}

unfoldable pub key_of : Jiff → Timestamp → Sample → ApiKey
key_of jiff now s = record {
  metadata = record {
    name = some s.name;
    namespace = some (codes "demo");
    generation = none;
    resource_version = none;
  };
  spec = record {
    display_name = some s.display;
    provider = s.provider;
    owner = some (codes "david");
    renew_url = some s.renew;
    setup = record { permissions = s.permissions; notes = none };
    rotation = record { max_age = s.max_age; warn_before = none; critical_before = none };
    targets = s.targets;
    consumers = s.consumers;
  };
  status =
      map_option
        (λ ago.
          status_of s (now -ℤ days jiff ago)
            (map_option (λ d. now +ℤ days jiff d) s.expires_in_days))
        s.rotated_days_ago;
}

unfoldable pub sample_keys : Jiff → Timestamp → List ApiKey
sample_keys jiff now = map (key_of jiff now) samples
