-- ===== src/Pages.antt =====
-- The pages (src/web/pages.rs): what their templates are given, and what a handler replies. The
-- templates themselves are compiled by the `askama` crate, and replies are turned into HTTP by
-- `axum`: both are parameters.
pub mod Listing
pub mod Forms
pub mod Actions
pub mod Guarded
pub mod Changes
pub mod StableSort
pub mod Sorting
pub mod Counts
mod Examples
use you_spin_me.Prelude.{
  ℕ, Bool, true, false, ◌&&◌, Option, none, some, List, [], ◌∷◌, ◌++◌, any, unwrap_or, map_option,
  is_some, if◌then◌else◌, Result, ok, err, Bytes, codes, bytes_eq,
}
use you_spin_me.Time.{Timestamp}
use you_spin_me.Rotation.{RotateOutcome}
use you_spin_me.Session.{AppError, internal, Session, Mode, insecure_dev, oidc}
use you_spin_me.Config.{Config}
use you_spin_me.Rotator.{Rotator}
use you_spin_me.Views.{Outside, KeyRow}
use you_spin_me.Views.Detail.{KeyDetail}

pub record Layout : Type 0 where
  pub title : Bytes
  pub user : Bytes
  pub admin : Bool
  pub csrf : Bytes
  pub asset_version : Bytes
  pub dark : Bool
  pub palette : Bytes
  pub dev_auth : Bool

pub record Filters : Type 0 where
  pub q : Bytes
  pub state : Bytes
  pub provider : Bytes
  pub sort : Bytes

pub record StateCount : Type 0 where
  pub state : Bytes
  pub label : Bytes
  pub count : ℕ
  pub active : Bool

pub record KeysTable : Type 0 where
  pub rows : List KeyRow
  pub total : ℕ
  pub matching : ℕ
  pub counts : List StateCount
  pub filters : Filters
  pub oob : Bool

-- `IndexPage`: the table's fields, and these.
pub record IndexPage : Type 0 where
  pub layout : Layout
  pub table : KeysTable
  pub providers : List Bytes

pub record DetailPage : Type 0 where
  pub layout : Layout
  pub key : KeyDetail
  pub can_rotate : Bool
  pub probe_supported : Bool
  pub notice : Bytes
  pub today : Bytes

pub record RotateResult : Type 0 where
  pub name : Bytes
  pub error : Bytes
  pub outcome : Option RotateOutcome
  pub consumers : List Bytes

-- `ErrorPage` of src/web/mod.rs.
pub record ErrorPage : Type 0 where
  pub status : ℕ
  pub title : Bytes
  pub message : Bytes

pub data Page : Type 0 where
  index : IndexPage → Page
  keys_table : KeysTable → Page
  detail : DetailPage → Page
  rotate_result : RotateResult → Page
  error_page : ErrorPage → Page

-- What a handler hands to `axum`.
pub data Reply : Type 0 where
  redirect : Bytes → Reply
  -- A page with extra headers.
  html : List (Bytes × Bytes) → Bytes → Reply

-- Of a request's headers: is there one of this name, and its value if it is readable text.
pub record Headers : Type 0 where
  pub contains_key : Bytes → Bool
  pub get : Bytes → Option Bytes

-- The crates that pages call: templates, dates of forms (`err none` is no date, `err (some e)` has no
-- midnight), and the encoding of texts in URLs.
pub record Crates : Type 0 where
  pub views : Outside
  pub render : Page → Result Bytes Bytes
  pub midnight : Bytes → Result (Option Bytes) Timestamp
  pub urlencode : Bytes → Bytes

-- `AppState`: what does not change while the program runs.
pub record App (R W : Type 0) : Type 0 where
  pub crates : Crates
  pub cfg : Config
  pub mode : Mode
  pub rotator : Rotator R W
  pub asset_version : Bytes

abbrev pub palettes : List Bytes
palettes = codes "neutral" ∷ codes "blue" ∷ codes "green" ∷ codes "orange" ∷ codes "violet" ∷ []

-- The palette of the cookie, if it is one of the known ones.
abbrev pub palette_of : Option Bytes → Bytes
palette_of none = codes "neutral"
palette_of (some p) = if any (λ x. bytes_eq x p) palettes then p else codes "neutral"

abbrev pub is_dark : Option Bytes → Bool
is_dark none = false
is_dark (some c) = bytes_eq c (codes "dark")

abbrev pub is_dev : Mode → Bool
is_dev (insecure_dev csrf) = true
is_dev oidc = false

-- `Layout::new`; `jar` reads the plain cookies.
unfoldable pub layout_of :
    {R W : Type 0} → App R W → Session → (jar : Bytes → Option Bytes) → Bytes → Layout
layout_of app session jar title = record {
  title = title;
  user = session.name;
  admin = session.admin;
  csrf = session.csrf;
  asset_version = app.asset_version;
  dark = is_dark (jar (codes "ysm_theme"));
  palette = palette_of (jar (codes "ysm_palette"));
  dev_auth = is_dev app.mode;
}

unfoldable pub is_htmx : Headers → Bytes → Bool
is_htmx headers target = elim (headers.get (codes "hx-target")) [
  | none ↦ false
  | some t ↦ headers.contains_key (codes "hx-request") && bytes_eq t target
]

-- `Html(page.render()?)`: a template error is an internal one.
unfoldable pub rendered : Crates → List (Bytes × Bytes) → Page → Result AppError Reply
rendered crates headers page = elim (crates.render page) [
  | ok text ↦ ok (html headers text)
  | err e ↦ err (internal (codes "template error: " ++ e))
]
