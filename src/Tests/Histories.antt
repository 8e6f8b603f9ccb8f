-- ===== src/Tests/Histories.antt =====
-- storage_protocol.rs: histories of calls at concrete inputs.
use libre_drive.Prelude.{arith, ◌≡◌, refl, ap, some, List, [], ◌∷◌, ◌++◌, All}
use libre_drive.Prelude.Text.{text, str_eq}
use libre_drive.Prelude.Int.{pos, add_i64}
use libre_drive.Prelude.Result.{ok}
use libre_drive.P2p.StorageManager.{new, initialize}
use libre_drive.P2p.StorageManager.Restart.{restart, replies-restart}
use libre_drive.Tests.Numbers.{number_crates, number_crates-Works, number_crates-ReadsBack}
use libre_drive.P2p.StorageManager.Calls.{
  Call, store, retrieve, extend_owner, cleanup, run, IsPlainCall,
}
use libre_drive.P2p.StorageManager.Retrieval.{healthy, store_fragment-eq}
use libre_drive.P2p.StorageManager.View.{
  done, bytes, reply_of, respond, replies, rooms, serve_all, view_after,
}
use libre_drive.P2p.StorageManager.Refinement.{nothing, replies-eq-serve_all}
use libre_drive.P2p.StorageManager.Heartbeats.{after_call, deadline, retrieve-renewed}
use libre_drive.P2p.StorageManager.Fragment.{is_plain}
use libre_drive.Tests.Node.{abc_prefix, abc_plain, plain_crates, plain_crates-Works}

abbrev some_calls : List Call
some_calls =
    store (text "abc") (text "alice") (text "hello") (pos 100) (pos 10)
    ∷ retrieve (text "abc") (pos 20)
    ∷ store (text "a") (text "bob") (text "hi") (pos 100) (pos 30)
    ∷ cleanup (pos 200)
    ∷ retrieve (text "abc") (pos 210)
    ∷ []

some_calls-plain : All IsPlainCall some_calls
unfolding is_plain
some_calls-plain = (refl, (tt, (refl, (tt, (tt, tt)))))

replies-eq-serve_all_example :
    replies plain_crates (healthy (new 100) []) some_calls
    ≡ serve_all (rooms plain_crates (healthy (new 100) []) some_calls) some_calls nothing
replies-eq-serve_all_example =
    replies-eq-serve_all plain_crates plain_crates-Works 100 some_calls some_calls-plain

-- A heartbeat at 50 renews for 30 days, and the clean-up at 200 comes after the first expiration time.
abbrev heartbeats : List Call
heartbeats =
    extend_owner (text "alice") 30 (pos 50)
    ∷ cleanup (pos 200)
    ∷ retrieve (text "abc") (pos 300)
    ∷ []

in_time : deadline (text "abc") (text "alice") (pos 100) heartbeats ≡ some (pos 2592050)
unfolding deadline after_call str_eq add_i64
in_time = refl

accepted :
    respond plain_crates
      (store (text "abc") (text "alice") (text "hello") (pos 100) (pos 10))
      (run plain_crates (healthy (new 100) []) [])
    ≡ done
unfolding respond run
accepted =
    ap (λ r. reply_of (λ f. done) r.0)
      (store_fragment-eq plain_crates (text "abc") (text "alice") (text "hello") (pos 100) (pos 10)
        (new 100) [] refl (text "ab") abc_prefix (text "{}") refl)

retrieve-renewed_example :
    respond plain_crates (retrieve (text "abc") (pos 2000000)) (
      run plain_crates
        (healthy (new 100) [])
        ([] ++ store (text "abc") (text "alice") (text "hello") (pos 100) (pos 10) ∷ heartbeats))
    ≡ bytes (text "hello")
retrieve-renewed_example =
    retrieve-renewed plain_crates plain_crates-Works 100 [] heartbeats (text "abc") (text "alice")
      (text "hello") (pos 100) (pos 10) (pos 2000000) (pos 2592050) tt abc_plain
      (tt, (tt, (tt, tt))) accepted in_time refl

-- A node with 100 bytes is stopped after two calls, and started with 50.
abbrev before_restart : List Call
before_restart =
    store (text "abc") (text "alice") (text "hello") (pos 100) (pos 10)
    ∷ retrieve (text "abc") (pos 20)
    ∷ []

replies-restart_example :
    let before = healthy (new 100) [] in
    let end = run number_crates before before_restart in
    ((initialize number_crates (healthy (new 50) end.disk.files)).0 ≡ ok tt)
    × (replies number_crates (restart number_crates 50 end) some_calls
        ≡ serve_all
            (rooms number_crates (restart number_crates 50 end) some_calls)
            some_calls
            (view_after (rooms number_crates before before_restart) before_restart nothing))
replies-restart_example =
    replies-restart number_crates number_crates-Works number_crates-ReadsBack 100 50 before_restart
      some_calls (abc_plain, (tt, tt)) some_calls-plain (omega arith)
