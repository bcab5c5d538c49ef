-- ===== src/Service/Sample.antt =====
-- Services for the tests: a stream that takes every entry, and an HMAC that is the message itself.
use task.Prelude.{some, List, [], ◌∷◌}
use task.Prelude.Text.{codes}
use task.Http.{User, Request}
use task.Audit.Chain.{boot}
use task.Service.Effects.{Services, World, StreamEntry, added}

abbrev pub sample_services : Type 0 → Services
sample_services Db = record {
  Db = Db;
  Stream = List StreamEntry;
  xadd = λ e es. (added "1-0", e ∷ es);
  hmac = λ key m. m;
  audit_key = codes "k";
  chain_id = codes "c";
  clock = λ n. codes "t";
}

abbrev pub sample_world : {Db : Type 0} → Db → World (sample_services Db)
sample_world db = record { db = db; stream = []; chain = boot }

abbrev pub alice : User
alice = record { id = "alice"; email = "a@x"; role = "USER" }

abbrev pub bob : User
bob = record { id = "bob"; email = "b@x"; role = "USER" }

abbrev pub request_of : User → Request
request_of u = record {
  user = u;
  request_id = "r";
  ip = "::1";
  method = "GET";
  original_url = "/";
  user_agent = some "ua";
}
