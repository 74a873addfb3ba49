-- ===== src/Examples.antt =====
-- Concrete parameters and states, at which the theorems are applied.
mod Jobs
mod Requests
mod Tickets
mod Sessions
mod Retention
mod Logins
mod Chaos
mod Loops
mod Starts
use projet_etude_app_demo.Prelude.{
  ℕ, ◌+◌, ◌/◌, ◌*◌, ℤ, pos, negsuc, Bytes, str, List, [], ◌∷◌, ◌++◌, Bool, true, false, Option,
  none, some, inl, str_eq, if◌then◌else◌,
}
use projet_etude_app_demo.Model.{Time}
use projet_etude_app_demo.Metrics.{Span}
use projet_etude_app_demo.Request.{Request, Context}
use projet_etude_app_demo.Auth.{Idp, Config, Claims, IdToken, Authenticator, config_from_env}
use projet_etude_app_demo.Store.Db.{Db, empty_db}
use projet_etude_app_demo.Store.Exec.{Pg, World, Error, Result, ok, err, answered, message}
use projet_etude_app_demo.Store.Trace.{Otel, Carrier}
use projet_etude_app_demo.Worker.{Net, Worker}
use projet_etude_app_demo.Http.Exchange.{Exchange}
use projet_etude_app_demo.Http.Input.{Platform, CreateBody, nan}

-- Nanoseconds to microseconds.
abbrev pub micros : ℤ → ℤ
micros (pos n) = pos (n / 1000)
micros (negsuc n) = negsuc (n / 1000)

-- A server that answers every statement.
abbrev pub pg : Pg
pg = record {
  reply = λ n. answered;
  now = λ n. pos (n + 1000);
  locked = λ n id. false;
  accepts_text = λ s. true;
  jsonb = λ s. some s;
  interval = micros;
  host = λ a. a;
  exemplars = true;
}

abbrev pub otel : Otel
otel = record {
  inject = λ span. elim span [ none ↦ [] | some t ↦ (str "traceparent", t) ∷ [] ];
  start = λ span. span;
  extract = λ span carrier. span;
  marshal = λ carrier. str "{}";
  unmarshal = λ raw. none;
}

abbrev pub net : Net
net = record { decode = λ raw. ok (pos 1); bad_url = λ url. none; respond = λ n. ok 204 }

abbrev pub worker : Worker
worker = record { id = str "w1"; webhook_url = str "http://hook" }

abbrev pub platform : Platform
platform = record {
  decode_create = λ raw. ok (record { title = raw; description = []; priority = str "high" });
  split_host = λ a. some a;
  canonical_ip = λ a. some a;
  oauth = record { auth_code_url = λ state. state; exchange = λ code. ok (some code) };
  parse_float = λ s. nan;
  chaos_env = str "1";
}

-- A provider whose tokens are their subjects, all of them viewers.
abbrev pub idp : Idp
idp = record {
  discover = λ url. ok tt;
  verify = λ raw. ok (record {
    subject = raw;
    claims = ok (record { email = str "a@b"; groups = str "viewers" ∷ [] });
  });
}

abbrev pub hmac : Bytes → Bytes → Bytes
hmac key token = key ++ token

abbrev pub config : Config
config = record {
  issuer_url = str "https://idp";
  client_id = str "app";
  client_secret = [];
  redirect_url = [];
  viewer_group = str "viewers";
  operator_group = str "operators";
  operator_emails = str "a@b" ∷ [];
  session_key = str "key";
  enabled = true;
}

abbrev pub authenticator : Authenticator
authenticator = record { cfg = config; has_verifier = true }

-- With authentication off, every request is the developer's.
abbrev pub open_authenticator : Authenticator
open_authenticator = record { cfg = record config { enabled = false }; has_verifier = false }

abbrev pub world : World
world = record { db = empty_db; sent = []; calls = 0; effects = [] }

abbrev pub exchange : Exchange
exchange = record {
  world = world;
  recorded = 200;
  wire = none;
  headers = [];
  chunks = [];
  process = record { held = []; exiting = none };
}

-- A JSON request to create the ticket "disk", with a bearer token.
unfoldable pub headers : Bytes → Bytes
unfolding str_eq
headers name =
    if str_eq name (str "Authorization")
    then str "Bearer alice"
    else if str_eq name (str "Content-Type")
    then str "application/json"
    else []

abbrev pub request : Request
request = record {
  context = record { principal = none; span = none };
  header = headers;
  cookie = λ name. none;
  query = λ name. [];
  path_id = str "7";
  body = str "disk";
  form = inl (str "no form");
  url_scheme = [];
  remote_addr = str "10.0.0.1";
  chance = record { draw = some 5; bytes = λ n. []; gone = false; batches = λ ms. ms };
}
