-- ===== src/Durability.antt =====
-- An upload of storage/file_manager.rs whose shards are kept by nodes of p2p/storage_protocol.rs. The
-- source does not yet send the shards to the nodes: here each is stored at a node of its own.
use libre_drive.P2p.StorageManager.Names.{Works}
use libre_drive.P2p.StorageManager.Calls.{IsPlainCall, Call, store, retrieve, run}
use libre_drive.P2p.StorageManager.Fragment.{is_plain}
use libre_drive.Prelude.{
  All, true, ℕ, ◌+◌, ◌^◌, ◌≤◌, ◌<◌, ◌≡◌, refl, sym, ap, ◌∙◌, subst, inl, inr, false, Option, none,
  some, List, [], ◌∷◌, ◌++◌, map, length,
}
use libre_drive.Prelude.Result.{Result, ok}
use libre_drive.Prelude.Text.{Bytes, Str}
use libre_drive.Prelude.Int.{ℤ, ltb_ℤ}
use libre_drive.Storage.{StorageError}
use libre_drive.Storage.Erasure.{Shard, count_some}
use libre_drive.Storage.Erasure.Code.{LeftOf}
use libre_drive.Storage.FileManager.{
  FileManager, PreparedFile, ShardLocation, locate, prepare_upload, reconstruct_file, zip_shards,
  shard_data,
}
use libre_drive.Storage.FileManager.Boundary.{Externals, Draws, AreDraws, AreExternals}
use libre_drive.Storage.FileManager.RoundTrip.{reconstruct_file-prepare_upload}
use libre_drive.Storage.FileManager.Integrity.{prepare_upload-made}
use libre_drive.P2p.StorageManager.{Crates, new}
use libre_drive.P2p.StorageManager.Actions.{Node}
use libre_drive.P2p.StorageManager.Retrieval.{healthy}
use libre_drive.P2p.StorageManager.View.{Reply, done, bytes, respond}
use libre_drive.P2p.StorageManager.Heartbeats.{deadline, retrieve-renewed}
use libre_drive.P2p.StorageManager.Restored.{ReadsBack}
use libre_drive.P2p.StorageManager.Restart.{restart, retrieve-restarted}

-- A history of plain calls has plain parts.
IsPlainCall-left : (cs ds : List Call) → All IsPlainCall (cs ++ ds) → All IsPlainCall cs
IsPlainCall-left [] ds h = tt
IsPlainCall-left (c ∷ cs) ds h = (h.0, IsPlainCall-left cs ds h.1)

IsPlainCall-right : (cs ds : List Call) → All IsPlainCall (cs ++ ds) → All IsPlainCall ds
IsPlainCall-right [] ds h = h
IsPlainCall-right (c ∷ cs) ds h = IsPlainCall-right cs ds h.1

-- The history of a node: what it offers, its calls before the shard was stored, how it was stored, and
-- the calls after.
pub record Host : Type 0 where
  pub offer : ℕ
  pub before : List Call
  pub owner : Str
  pub expires : ℤ
  pub now : ℤ
  pub after : List Call

-- A restart of a node: what it offers then, and its calls after.
pub record Again : Type 0 where
  pub offer : ℕ
  pub further : List Call

-- The data that a caller has after a reply.
abbrev pub fetched : Reply → Option Bytes
fetched (bytes xs) = some xs
fetched _ = none

module _ (x : Crates) (later : ℤ) where
  -- The node before a shard with this id and data is stored, and at the end of its history.
  abbrev pub asked_node : Host → Node
  asked_node h = run x (healthy (new h.offer) []) h.before

  abbrev pub final_node : Host → Str → Bytes → Node
  final_node h id xs =
      run x (healthy (new h.offer) []) (h.before ++ store id h.owner xs h.expires h.now ∷ h.after)

  -- The same node, started again on its files.
  abbrev pub restarted_node : Host → Again → Str → Bytes → Node
  restarted_node h r id xs = run x (restart x r.offer (final_node h id xs)) r.further

  -- All ids are plain, the node accepted the shard, and these calls after leave it with an expiration time that has not
  -- passed.
  pub record Keeps (h : Host) (calls : List Call) (id : Str) (xs : Bytes) : Type 0 where
    pub plain_before : All IsPlainCall h.before
    pub plain_id : is_plain id ≡ true
    pub plain_after : All IsPlainCall calls
    pub accepted : respond x (store id h.owner xs h.expires h.now) (asked_node h) ≡ done
    pub expires' : ℤ
    pub in_time : deadline id h.owner h.expires calls ≡ some expires'
    pub valid : ltb_ℤ expires' later ≡ false

  -- The answers for shards, each with its id: a shard is lost, or a node that keeps it is asked for it;
  -- the node may have been restarted, where JSON reads back the index that it wrote.
  pub data Answers : List (Str × Bytes) → List (Option Bytes) → Type 0 where
    no_shard : Answers [] []
    lost :
        {id : Str} {xs : Bytes} {shards : List (Str × Bytes)} {answers : List (Option Bytes)}
        → Answers shards answers
        → Answers ((id, xs) ∷ shards) (none ∷ answers)
    kept :
        {id : Str} {xs : Bytes} {shards : List (Str × Bytes)} {answers : List (Option Bytes)}
        (h : Host)
        → Keeps h h.after id xs
        → Answers shards answers
        → Answers
            ((id, xs) ∷ shards)
            (fetched (respond x (retrieve id later) (final_node h id xs)) ∷ answers)
    kept_restarted :
        {id : Str} {xs : Bytes} {shards : List (Str × Bytes)} {answers : List (Option Bytes)}
        (h : Host) (r : Again)
        → ReadsBack x
        → length h.before + length h.after + 1 < 2 ^ 32
        → Keeps h (h.after ++ r.further) id xs
        → Answers shards answers
        → Answers
            ((id, xs) ∷ shards)
            (fetched (respond x (retrieve id later) (restarted_node h r id xs)) ∷ answers)

  module _ (node_laws : Works x) where
    Answers-LeftOf :
        {shards : List (Str × Bytes)} {answers : List (Option Bytes)}
        → Answers shards answers
        → LeftOf answers (map (λ s. s.1) shards)
    Answers-LeftOf no_shard = tt
    Answers-LeftOf (lost r) = (inl refl, Answers-LeftOf r)
    Answers-LeftOf (kept {id} {xs} h k r) = (
      inr (
          ap fetched (
            retrieve-renewed x node_laws h.offer h.before h.after id h.owner xs h.expires h.now
              later k.expires' k.plain_before k.plain_id k.plain_after k.accepted k.in_time
              k.valid)),
      Answers-LeftOf r,
    )
    Answers-LeftOf (kept_restarted {id} {xs} h again reads few k r) = (
      inr (
          ap fetched (
            retrieve-restarted x node_laws reads h.offer again.offer h.before h.after again.further
              id h.owner xs h.expires h.now later k.expires' k.plain_before k.plain_id
              (IsPlainCall-left h.after again.further k.plain_after)
              (IsPlainCall-right h.after again.further k.plain_after) few k.accepted k.in_time
              k.valid)),
      Answers-LeftOf r,
    )

contents-zip_shards :
    (f : Shard → ShardLocation) (shards : List Shard)
    → map (λ s. s.1) (zip_shards (map f shards) shards) ≡ map (λ s. s.contents) shards
contents-zip_shards f [] = refl
contents-zip_shards f (s ∷ shards) = ap (λ r. s.contents ∷ r) (contents-zip_shards f shards)

-- With libraries that behave as documented, a file below 2^50 bytes is prepared for upload, and each
-- of its shards is lost or was stored at a node that began empty, under its id, on a disk that works,
-- with an index that JSON can write, and where paths of plain names lead to files of their own. The
-- nodes that are asked accepted the shard and kept it: whatever calls that store under plain ids came
-- before and after, the shard's expiration time, as the calls after moved it, has not passed, and the
-- shard was not deleted or stored again. A node may also have been restarted once in between, if JSON
-- reads back the index that it wrote and there were fewer than 2^32 calls before. If at least as many
-- shards are answered as there are data shards, the file is reconstructed as it was.
pub reconstruct_file-hosted :
    (x : Externals) (m : FileManager) (laws : AreExternals x m.erasure_config) (d : Draws)
    (draws : AreDraws d) (filename : Str) (plain : Bytes) (read : d.file ≡ ok plain)
    (small : length plain < 2 ^ 50) (p : PreparedFile) (node : Crates) (node_laws : Works node)
    (later : ℤ) (answers : List (Option Bytes))
    → prepare_upload x m d filename ≡ ok p
    → Answers node later (shard_data p) answers
    → m.erasure_config.data_shards ≤ count_some answers
    → reconstruct_file x m p.metadata answers ≡ ok plain
reconstruct_file-hosted x m laws d draws filename plain read small p node node_laws later answers
      made r enough =
    let (p', made', _, _, back) =
      reconstruct_file-prepare_upload x m laws d draws filename plain read small in
    let same : p' ≡ p =
      let e : ◌≡◌ {A = Result StorageError PreparedFile} (ok p') (ok p) = sym made' ∙ made in cc in
    let located = (prepare_upload-made x m d filename plain p read made).1 in
    let left : LeftOf answers (map (λ s. s.contents) p.shards) =
      subst (LeftOf answers)
        (ap (λ ls. map (λ s. s.1) (zip_shards ls p.shards)) located
          ∙ contents-zip_shards (locate x p.metadata.file_id) p.shards)
        (Answers-LeftOf node later node_laws r) in
    ap (λ q. reconstruct_file x m q.metadata answers) (sym same)
    ∙ back answers (subst (λ q. LeftOf answers (map (λ s. s.contents) q.shards)) (sym same) left)
        enough
