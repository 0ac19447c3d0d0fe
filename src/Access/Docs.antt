-- ===== src/Access/Docs.antt =====
-- The documents of the access layer (src/archive.rs), and the vocabulary of src/access.rs.
-- A `DateTime` is a number; the composite `_id` of a join row is the pair of its two columns.
use boom_gw.Base.{
  ℕ, ◌≡◌, refl, String, Bool, true, ◌||◌, List, [], ◌∷◌, Option, none, some, str_eq, if◌then◌else◌,
}
use text.Mathlib.Text.{starts_with}
use boom_gw.Access.Mongo.{any}

pub record UserDoc : Type 0 where
  pub sub : String
  pub email : Option String
  pub display_name : Option String
  pub role_ids : List String
  pub active : Bool
  pub created_at : ℕ
  pub last_seen_at : ℕ

pub record RoleDoc : Type 0 where
  pub id : String
  pub name : String
  pub acls : List String
  pub description : String
  pub system : Bool

pub record GroupDoc : Type 0 where
  pub id : String
  pub name : String
  pub description : String
  pub single_user_group : Bool
  pub created_at : ℕ

pub record GroupUserDoc : Type 0 where
  pub group_id : String
  pub user_sub : String
  pub admin : Bool
  pub created_at : ℕ

pub record StreamDoc : Type 0 where
  pub id : String
  pub name : String
  pub description : String
  pub system : Bool

pub record GroupStreamDoc : Type 0 where
  pub group_id : String
  pub stream_id : String
  pub created_at : ℕ

pub record StreamUserDoc : Type 0 where
  pub stream_id : String
  pub user_sub : String
  pub created_at : ℕ

abbrev pub acl_system_admin : String
acl_system_admin = "System admin"

abbrev pub acl_manage_users : String
acl_manage_users = "Manage users"

abbrev pub acl_manage_groups : String
acl_manage_groups = "Manage groups"

abbrev pub acl_manage_roles : String
acl_manage_roles = "Manage roles"

abbrev pub acl_manage_streams : String
acl_manage_streams = "Manage streams"

abbrev pub acl_manage_science_filters : String
acl_manage_science_filters = "Manage science filters"

abbrev pub acl_publish_alerts : String
acl_publish_alerts = "Publish alerts"

abbrev pub acl_upload_data : String
acl_upload_data = "Upload data"

abbrev pub all_acls : List String
all_acls =
    acl_system_admin ∷ acl_manage_users ∷ acl_manage_groups ∷ acl_manage_roles ∷ acl_manage_streams
    ∷ acl_manage_science_filters ∷ acl_publish_alerts ∷ acl_upload_data ∷ []

abbrev pub role_super_admin : String
role_super_admin = "super_admin"

abbrev pub role_group_admin : String
role_group_admin = "group_admin"

abbrev pub role_full_user : String
role_full_user = "full_user"

abbrev pub role_view_only : String
role_view_only = "view_only"

abbrev pub stream_gracedb_gw : String
stream_gracedb_gw = "gracedb_gw"

abbrev pub stream_gcn_grb : String
stream_gcn_grb = "gcn_grb"

abbrev pub stream_gcn_frb : String
stream_gcn_frb = "gcn_frb"

abbrev pub stream_gcn_neutrino : String
stream_gcn_neutrino = "gcn_neutrino"

abbrev pub stream_boom_optical : String
stream_boom_optical = "boom_optical"

abbrev role : String → String → List String → RoleDoc
role id name acls = record { id = id; name = name; acls = acls; description = ""; system = true }

abbrev pub default_roles : List RoleDoc
default_roles =
    role role_super_admin "Super admin" (acl_system_admin ∷ [])
    ∷ role role_group_admin "Group admin"
        (acl_manage_groups ∷ acl_manage_science_filters ∷ acl_publish_alerts ∷ acl_upload_data ∷ [])
    ∷ role role_full_user "Full user" (acl_manage_science_filters ∷ acl_upload_data ∷ [])
    ∷ role role_view_only "View only" []
    ∷ []

abbrev stream : String → String → StreamDoc
stream id name = record { id = id; name = name; description = ""; system = true }

abbrev pub default_streams : List StreamDoc
default_streams =
    stream stream_gracedb_gw "GraceDB GW"
    ∷ stream stream_gcn_grb "GCN GRB"
    ∷ stream stream_gcn_frb "GCN FRB"
    ∷ stream stream_gcn_neutrino "GCN neutrino"
    ∷ stream stream_boom_optical "BOOM optical"
    ∷ []

-- `contains` of a list or a set of strings.
abbrev pub contains : String → List String → Bool
contains s = any (λ t. str_eq t s)

unfoldable pub instrument_stream : String → Option String
instrument_stream instrument =
    if starts_with instrument "Fermi-"
      || starts_with instrument "Swift-"
      || starts_with instrument "SVOM-"
      || starts_with instrument "Einstein"
      || starts_with instrument "BurstCube"
    then some stream_gcn_grb
    else if str_eq instrument "CHIME-FRB" || str_eq instrument "DSA110-FRB"
    then some stream_gcn_frb
    else if str_eq instrument "IceCube" || str_eq instrument "KM3NeT"
    then some stream_gcn_neutrino
    else if str_eq instrument "BOOM"
    then some stream_boom_optical
    else none

instruments :
    (instrument_stream "Fermi-GBM-FIN" ≡ some "gcn_grb")
    × (instrument_stream "KM3NeT" ≡ some "gcn_neutrino")
    × (instrument_stream "Mystery-Scope" ≡ none)
unfolding instrument_stream
instruments = (refl, refl, refl)
