-- ===== src/Main/Boot/Tests.antt =====
-- A start in an environment whose variables all have the text "10".
use route_planner.Prelude.{◌≡◌, ◌↔◌, refl, true, List, []}
use route_planner.Errors.{other}
use route_planner.Effects.{ok, pure, throw}
use route_planner.Repository.Gorm.{Table}
use route_planner.Config.Tests.{tens, validator, tens_config, tens_loaded}
use route_planner.Database.{up}
use route_planner.Routing.{Entry}
use route_planner.Routing.App.{all_routes, set_up_routes}
use route_planner.Routing.Tests.{libs}
use route_planner.Main.Boot.{
  Clients, Connection, boot, limits_of, users_of, places_of, jwt_of, routes_of,
}
use route_planner.Main.Boot.Up.{IsStarted, boot_up}
use route_planner.Main.Serving.{Front, main_entries}
use route_planner.Main.Serving.Tests.{front as front_with}

-- A database without rows.
abbrev table : {Row : Type 0} → Table (Unit {0}) Row
table = record {
  first = λ column value. throw (other "first");
  create = λ row. pure row;
  updates = λ id entries. pure 0;
  delete = λ id. pure 0;
}

abbrev db : Connection (Unit {0})
db = record {
  users = table;
  places = table;
  queries = record {
    by_tags = λ tags. pure [];
    by_tags_within = λ tags from radius. pure [];
    distinct_tags = pure [];
  };
}

abbrev pub clients : Clients (Unit {0})
clients = record {
  gorm = record { open_with = λ dsn. pure db; auto_migrate = λ d. pure tt };
  open_store = λ url w. (true, w);
  redis = record { get = λ key. throw (other "redis: nil"); set = λ key text ttl. pure tt };
  tags_codec = record { marshal = λ tags. ok []; unmarshal = λ text. ok [] };
  ollama = record {
    post = λ url payload. throw (other "post");
    unmarshal_tags = λ text. ok [];
    show_status = λ n. "200";
  };
  extract_multi_tags = λ s segments tags. pure [];
  geoapify = record {
    show_float = λ f. [];
    show_status = λ n. "200";
    until_deadline = throw (other "deadline");
    count_request = λ w. w;
    get = λ url timeout. throw (other "get");
  };
  counters = record { hit = λ w. w; miss = λ w. w };
}

abbrev pub front : Front (Unit {0}) (Unit {0})
front = front_with (record {
  method = λ c. "GET";
  path = λ c. "/";
  unwritten = 200;
  now = λ w. (0, w);
  observe_since = λ method path start w. w;
  inc = λ method path code w. w;
})

abbrev pub entries : List (Entry (Unit {0}) (Unit {0}))
entries = main_entries front tens_config (
    all_routes libs (limits_of tens_config) (users_of db) (users_of db, jwt_of tens_config)
      (places_of db) (routes_of clients tens_config (places_of db)) (jwt_of tens_config))

pub came_up : boot clients libs front tens validator tt ≡ (up entries, tt)
unfolding boot set_up_routes
came_up = rw tens_loaded refl

boot_up_example :
    (boot clients libs front tens validator tt ≡ (up entries, tt))
    ↔ IsStarted clients libs front tens validator entries tt tt
boot_up_example = boot_up clients libs front tens validator entries tt tt
