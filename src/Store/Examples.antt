-- ===== src/Store/Examples.antt =====
-- Users of an organization, for the examples of the store.
use Prim.Native.String.{String}
use screen_goblin.Prelude.{Bool, true, none}
use screen_goblin.Authorization.Policy.{owner}
use screen_goblin.Store.Records.{User}

abbrev pub an_owner : String → User
an_owner id = record {
  id = id;
  email = "owner@acme.test";
  name = "Owner";
  password_hash = "hash";
  organization_id = "acme";
  role = owner;
  authentication_epoch = 1;
  authorization_epoch = 1;
  bootstrap_password_expires_at = none;
  disabled_at = none;
}

abbrev pub ann : User
ann = an_owner "ann"

abbrev pub bob : User
bob = an_owner "bob"

abbrev pub any_le : String → String → Bool
any_le a b = true
