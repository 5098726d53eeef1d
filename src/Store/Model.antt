-- ===== src/Store/Model.antt =====
-- store/models.py: the rows of the tables.
use meshelle.Prelude.{Bytes, List, ℕ}
use meshelle.Proto.Text.{Text}

pub record Post : Type 0 where
  pub id : ℕ
  pub room_id : ℕ
  pub author_public_key : Bytes
  pub text : Text
  pub post_ts : ℕ

pub record Client : Type 0 where
  pub room_id : ℕ
  pub public_key : Bytes
  pub last_role : ℕ
  pub last_timestamp : ℕ
  pub sync_since : ℕ
  pub out_path : Bytes
  pub out_path_len : ℕ
  pub first_seen : ℕ
  pub last_activity : ℕ

-- The two names of room/stats.py.
pub data CounterName : Type 0 where
  posted post_push : CounterName

pub record Counter : Type 0 where
  pub room_id : ℕ
  pub name : CounterName
  pub value : ℕ

-- The table's `Room`.
pub record HostedRoom : Type 0 where
  pub id : ℕ
  pub slug : Text
  pub public_key : Bytes
  pub created_at : ℕ

pub record Meta : Type 0 where
  pub key : Text
  pub value : Text

pub record Db : Type 0 where
  pub rooms : List HostedRoom
  pub meta : List Meta
  pub posts : List Post
  pub clients : List Client
  pub counters : List Counter
