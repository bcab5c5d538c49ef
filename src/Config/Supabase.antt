-- ===== src/Config/Supabase.antt =====
-- The client of Supabase that the process shares: backend/src/config/supabase.js. `create` is
-- `createClient` of @supabase/supabase-js, which throws for a URL that is none.
use task.Prelude.{String, Option, none, some, Bool, false, ◌≡◌, refl, List}
use task.Service.Answer.{Answer}
use task.Config.Environment.{Config, Loaded, loaded, missing}
use task.Server.App.{is_connected}

pub record SupabaseOptions : Type 0 where
  pub supabase_url : String
  pub supabase_key : String
  pub auto_refresh_token : Bool
  pub persist_session : Bool

-- A client, or the message of the error that was thrown.
pub data Opened (Client : Type 0) : Type 0 where
  opened : Client → Opened Client
  unopened : String → Opened Client

unfoldable pub supabase_options : Config → SupabaseOptions
supabase_options config = record {
  supabase_url = config.supabase_url;
  supabase_key = config.supabase_key;
  auto_refresh_token = false;
  persist_session = false;
}

module _ {Client : Type 0} (create : SupabaseOptions → Opened Client) where
  -- What becomes of the variable `supabaseClient`: a failure leaves it unset.
  abbrev stored : Opened Client → Opened Client × Option Client
  stored (opened client) = (opened client, some client)
  stored (unopened message) = (unopened message, none)

  unfoldable pub get_supabase_client : Loaded → Option Client → Opened Client × Option Client
  unfolding supabase_options
  get_supabase_client config (some client) = (opened client, some client)
  get_supabase_client (loaded config) none = stored (create (supabase_options config))
  get_supabase_client (missing message) none = (unopened message, none)

  -- `select` is the query `from('tasks').select('id').limit(1)`.
  abbrev answers : (Client → Answer (List String)) → Opened Client → Bool
  unfolding is_connected
  answers select (opened client) = is_connected (select client)
  answers select (unopened message) = false

  unfoldable pub test_connection :
      (Client → Answer (List String)) → Loaded → Option Client → Bool × Option Client
  unfolding get_supabase_client is_connected
  test_connection select config variable =
      let (client, kept) = get_supabase_client config variable in (answers select client, kept)

  -- `resetClient`
  unfoldable pub reset_client : Option Client → Option Client
  reset_client variable = none

  abbrev IsKept : Opened Client × Option Client → Type 0
  IsKept (opened client, variable) = variable ≡ some client
  IsKept (unopened message, variable) = variable ≡ none

  stored-IsKept : (o : Opened Client) → IsKept (stored o)
  stored-IsKept (opened client) = refl
  stored-IsKept (unopened message) = refl

  -- A client that was got is the one that is kept, and none is kept where none was got.
  get_supabase_client-IsKept :
      (config : Loaded) (variable : Option Client) → IsKept (get_supabase_client config variable)
  unfolding get_supabase_client
  get_supabase_client-IsKept config (some client) = refl
  get_supabase_client-IsKept (loaded config) none = stored-IsKept _
  get_supabase_client-IsKept (missing message) none = refl
