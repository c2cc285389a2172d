-- ===== src/Resource.antt =====
-- The system seen from the resources of one type: the intents of all agents under a fixed conflict
-- window with enforcement, as claims, completions, the relay and retention change the tables.
pub mod Quiet
pub mod Claims
pub mod Alone
use idemio.Prelude.{
  ℕ, String, Bool, true, false, not, ◌&&◌, List, [], ◌∷◌, ◌≡◌, ◌==◌, ℤ, any, select_where,
}
use idemio.Claim.{Request}
use idemio.Claim.Complete.{Completion, complete}
use idemio.Claim.Statements.{within_window, is_live}
use idemio.Claim.Transaction.{claim}
use idemio.Conflict.{compatible}
use idemio.Relay.{RelayServer, Message, publish}
use idemio.Tables.{KeyRow, IntentRow, Db, Server}
use idemio.Tables.Laws.{IsUnique}

-- an earlier live intent of another agent on the same resource, in the window, that conflicts
unfoldable pub is_rival_of : ℤ → IntentRow → IntentRow → Bool
is_rival_of window i j =
    j.resource_type == i.resource_type
    && (j.resource_id == i.resource_id
        && (within_window window i.emitted_at j.emitted_at
            && (is_live j.voided_at
                && (not (compatible i.declared j.declared) && not (j.agent_id == i.agent_id)))))

-- an identifier that no intent has
abbrev pub IsFresh : String → Db → Type 0
IsFresh id db = any (λ (i : IntentRow). i.intent_id == id) db.intents ≡ false

module _ (type : String) (window : ℤ) where
  -- the manifest in force enforces, with this window, on this type
  abbrev pub IsGoverned : Request → Type 0
  IsGoverned req = req.resource_type ≡ type → (req.enforce ≡ true) × (req.window ≡ window)

  pub data Step : Db → Db → Type 0 where
    claims :
        (v : Server) (req : Request) (db : Db)
        → IsGoverned req
        → IsFresh (v.uuid 0) db
        → Step db (claim v req db).0
    completes :
        (v : Server) (agent key : String) (c : Completion) (db : Db)
        → IsUnique db
        → Step db (complete v agent key c db).0
    publishes :
        (batch : ℕ) (v : RelayServer) (topic : List Message) (db : Db)
        → Step db (record db {
          intents = (publish batch v (record { intents = db.intents; topic = topic })).0.intents;
        })
    retires :
        (keeps : IntentRow → Bool) (db : Db)
        → Step db (record db { intents = select_where keeps db.intents })
    elsewhere : (keys : List KeyRow) (db : Db) → Step db (record db { keys = keys })

  pub data Reach : Db → Type 0 where
    start : (db : Db) → db.intents ≡ [] → Reach db
    next : {db db' : Db} → Reach db → Step db db' → Reach db'
