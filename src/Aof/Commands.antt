-- ===== src/Aof/Commands.antt =====
-- The commands that `inventory_bytes` of scripts/runtime_epoch_redis_aof.py admits, and what the
-- program takes from Python's standard library.
use kairos_deploy.Base.{ℕ, Option, none, some, List, if◌then◌else◌}
use kairos_deploy.Base.Bytes.{Bytes, codes, bytes_eq}

-- The part of a decoded JSON value that the program looks at. Texts are lists of code points.
pub data JsonItem : Type 0 where
  str : List ℕ → JsonItem
  other_item : JsonItem

pub data Json : Type 0 where
  list : List JsonItem → Json
  other : Json

-- How `json.loads` ends: a value, a `JSONDecodeError`, or an exception that is none.
pub data Loaded : Type 0 where
  loaded : Json → Loaded
  decode_error uncaught : Loaded

-- `hashlib.sha256(value).hexdigest()`, `json.loads` and `json.dumps` of a list of texts.
pub record Python : Type 0 where
  pub sha256 : Bytes → Bytes
  pub json_loads : Bytes → Loaded
  pub json_dumps : List Bytes → Bytes

pub data Command : Type 0 where
  multi exec select xadd hset xgroup xclaim xack : Command

-- The chain of comparisons with `name`.
unfoldable pub command_named : Bytes → Option Command
command_named name =
    if bytes_eq name (codes "MULTI")
    then some multi
    else if bytes_eq name (codes "EXEC")
    then some exec
    else if bytes_eq name (codes "SELECT")
    then some select
    else if bytes_eq name (codes "XADD")
    then some xadd
    else if bytes_eq name (codes "HSET")
    then some hset
    else if bytes_eq name (codes "XGROUP")
    then some xgroup
    else if bytes_eq name (codes "XCLAIM")
    then some xclaim
    else if bytes_eq name (codes "XACK")
    then some xack
    else none
