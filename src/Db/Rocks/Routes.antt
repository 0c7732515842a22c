-- ===== src/Db/Rocks/Routes.antt =====
-- `rocks::register_endpoints`: src/quitsies/db/rocks.cpp, over the multiplexer of the HTTP library
-- as a parameter. The handlers of the keys and of the backups are those of Db.Rocks.Http.
use quitsies.Prelude.{ℕ, List, [], ◌∷◌, ◌++◌, Option, none, some, ◌≡◌, refl, ap, ◌∙◌, All, arith}
use quitsies.Text.{Bytes, codes}
use quitsies.Text.Decimal.{print}
use quitsies.Db.Rocks.Engine.{Engine, Aggregator}
use quitsies.Db.Rocks.Store.{Rocks, rocks_get}
use quitsies.Db.Rocks.Http.{
  Response, fresh, key_get, key_put, backup_path, backup_create, backup_clean, backup_info,
}
use quitsies.Db.Rocks.Map.{IsEngine}
use quitsies.Tcp.Memcached.Spec.{Map}

pub data Method : Type 0 where
  http_get http_put http_post : Method

-- What `get_endpoint_list` returns: the paths, each with the names of its methods.
abbrev pub EndpointList : Type 0
EndpointList = List (Bytes × List Bytes)

-- What a handler reads of `served::request`.
pub record HttpRequest : Type 0 where
  pub key : Bytes
  pub body : Bytes

-- A handler, which may ask the multiplexer for its endpoints.
abbrev pub Handler : Type 0 → Type 0 → Type 0
Handler E A = EndpointList → HttpRequest → Rocks E A → Response × Rocks E A

pub record Multiplexer (E A X : Type 0) : Type 0 where
  pub handle : Bytes → Method → Handler E A → X → X

-- What RocksDB says of itself: the estimate that `GetAggregatedIntProperty` leaves, and the text of
-- `_rocks_stats`, if there are some.
pub record Report (E : Type 0) : Type 0 where
  pub num_keys : E → ℕ
  pub stats_text : E → Option Bytes

abbrev text_or_none : Option Bytes → Bytes
text_or_none none = []
text_or_none (some text) = text

abbrev method_lines : Bytes → List Bytes → Bytes
method_lines path [] = []
method_lines path (method ∷ methods) =
    method ++ (codes " " ++ (path ++ (codes "\n" ++ method_lines path methods)))

-- The two loops of `/endpoints`.
abbrev pub endpoint_lines : EndpointList → Bytes
endpoint_lines [] = []
endpoint_lines ((path, methods) ∷ endpoints) = method_lines path methods ++ endpoint_lines endpoints

pub record Route (E A : Type 0) : Type 0 where
  pub path : Bytes
  pub method : Method
  pub handler : Handler E A

module _ {E A : Type 0} (db : Engine E) (stats : Aggregator A) (report : Report E) where
  abbrev pub stats_get : Rocks E A → Response × Rocks E A
  stats_get s =
      let body =
        codes "rocksdb.estimate-num-keys COUNT : "
        ++ (print (report.num_keys s.engine)
            ++ (codes "\n" ++ text_or_none (report.stats_text s.engine))) in
      (record fresh { body = body }, s)

  abbrev pub endpoints_get : EndpointList → Rocks E A → Response × Rocks E A
  endpoints_get endpoints s = (record fresh { body = endpoint_lines endpoints }, s)

  -- The calls of `mux.handle`, in their order.
  unfoldable pub routes : List (Route E A)
  unfolding key_get key_put backup_create backup_clean backup_info
  routes =
      record { path = codes "/stats"; method = http_get; handler = λ l q. stats_get }
      ∷ record {
        path = codes "/key/{key}";
        method = http_get;
        handler = λ l q. key_get db stats q.key;
      }
      ∷ record {
        path = codes "/key/{key}";
        method = http_put;
        handler = λ l q. key_put db stats q.key q.body;
      }
      ∷ record {
        path = codes "/key/{key}";
        method = http_post;
        handler = λ l q. key_put db stats q.key q.body;
      }
      ∷ record {
        path = codes "/backup_create";
        method = http_post;
        handler = λ l q. backup_create db stats;
      }
      ∷ record {
        path = codes "/backup_clean";
        method = http_post;
        handler = λ l q. backup_clean db stats;
      }
      ∷ record {
        path = codes "/backup_info";
        method = http_get;
        handler = λ l q. backup_info db stats;
      }
      ∷ record { path = codes "/endpoints"; method = http_get; handler = λ l q. endpoints_get l }
      ∷ []

  abbrev register_all : {X : Type 0} → Multiplexer E A X → List (Route E A) → X → X
  register_all mux [] x = x
  register_all mux (r ∷ rs) x = register_all mux rs (mux.handle r.path r.method r.handler x)

  unfoldable pub register_endpoints : {X : Type 0} → Multiplexer E A X → X → X
  unfolding routes
  register_endpoints mux x = register_all mux routes x

-- What RocksDB documents of its backups: to open them and to ask for them changes no value.
pub record BackupsApart {E : Type 0} (db : Engine E) (view : E → Map) : Type 0 where
  pub opening_keeps : (path : Bytes) (e : E) → view (db.open_backups path e).1 ≡ view e
  pub asking_keeps : (path : Bytes) (e : E) → view (db.backup_info path e).1 ≡ view e

module _ {E A : Type 0} (db : Engine E) (stats : Aggregator A) (report : Report E) (view : E → Map)
    (law : IsEngine db view) (backups : BackupsApart db view) where
  -- A handler of GET leaves the values and the lock as they were.
  abbrev pub IsSafe : Route E A → Type 0
  IsSafe r =
      r.method ≡ http_get
      → (l : EndpointList) (q : HttpRequest) (s : Rocks E A)
      → (view (r.handler l q s).1.engine ≡ view s.engine) × ((r.handler l q s).1.held ≡ s.held)

  key_get-kept :
      (key : Bytes) (s : Rocks E A)
      → ((key_get db stats key s).1.engine ≡ (db.get key s.engine).1)
        × ((key_get db stats key s).1.held ≡ s.held)
  unfolding key_get rocks_get
  key_get-kept key s = ground arith

  backup_info-kept :
      (s : Rocks E A)
      → (view (backup_info db stats s).1.engine ≡ view s.engine)
        × ((backup_info db stats s).1.held ≡ s.held)
  unfolding backup_info
  backup_info-kept s =
      let path = backup_path db stats s in
      let opened = backups.opening_keeps path s.engine in
      let asked = backups.asking_keeps path (db.open_backups path s.engine).1 in
      ground (arith, opened, asked)

  -- Over a RocksDB that is a map, each endpoint that is registered for GET is safe: it leaves every
  -- value of the database and the lock as they were, whatever the request asks for.
  pub routes-IsSafe : All IsSafe (routes db stats report)
  unfolding routes
  routes-IsSafe = (
    λ m l q s. (refl, refl),
    (
      λ m l q s.
          let (same, held) = key_get-kept q.key s in
          (ap view same ∙ law.get_keeps q.key s.engine, held),
      (
        λ m. cc (m),
        (
          λ m. cc (m),
          (
            λ m. cc (m),
            (λ m. cc (m), (λ m l q s. backup_info-kept s, (λ m l q s. (refl, refl), tt))),
          ),
        ),
      ),
    ),
  )
