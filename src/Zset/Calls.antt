-- ===== src/Zset/Calls.antt =====
-- zset.py: the methods of `ZSet` that change it, in any sequence.
use kagni.Prelude.{ℤ, List, [], ◌∷◌, Bytes, refl}
use kagni.Dict.{lookup}
use kagni.Common.{ZSet}
use kagni.Zset.Order.{ScoreOrder}
use kagni.Zset.Index.{
  Window, LexWindow, empty_zset, add, remove, remove_rank, remove_score, remove_member,
}
use kagni.Zset.Ranked.{score_in}
use kagni.Zset.Agree.{IsIndex, add-IsIndex, remove-IsIndex}
use kagni.Zset.Parts.{remove_rank-IsIndex, remove_score-IsIndex, remove_member-IsIndex}

pub data ZCall (Score : Type 0) : Type 0 where
  add_call : Bytes → Score → ZCall Score
  remove_call : Bytes → ZCall Score
  remove_rank_call : ℤ → ℤ → ZCall Score
  remove_score_call : Window Score → ZCall Score
  remove_member_call : LexWindow → ZCall Score

module _ {Score : Type 0} ⦃o : ScoreOrder Score⦄ where
  unfoldable pub run_zcall : ZCall Score → ZSet Score → ZSet Score
  unfolding add remove remove_rank remove_score remove_member
  run_zcall (add_call member s) z = (add member s z).1
  run_zcall (remove_call member) z = (remove member z).1
  run_zcall (remove_rank_call start end) z = (remove_rank start end z).1
  run_zcall (remove_score_call w) z = (remove_score w z).1
  run_zcall (remove_member_call w) z = (remove_member w z).1

  unfoldable pub run_zcalls : List (ZCall Score) → ZSet Score → ZSet Score
  unfolding run_zcall
  run_zcalls [] z = z
  run_zcalls (call ∷ rest) z = run_zcalls rest (run_zcall call z)

  pub run_zcall-IsIndex :
      (call : ZCall Score) (z : ZSet Score) → IsIndex z → IsIndex (run_zcall call z)
  unfolding run_zcall
  run_zcall-IsIndex (add_call member s) z h = add-IsIndex member s z h
  run_zcall-IsIndex (remove_call member) z h = remove-IsIndex member z h
  run_zcall-IsIndex (remove_rank_call start end) z h = remove_rank-IsIndex start end z h
  run_zcall-IsIndex (remove_score_call w) z h = remove_score-IsIndex w z h
  run_zcall-IsIndex (remove_member_call w) z h = remove_member-IsIndex w z h

  kept : (calls : List (ZCall Score)) (z : ZSet Score) → IsIndex z → IsIndex (run_zcalls calls z)
  unfolding run_zcalls
  kept [] z h = h
  kept (call ∷ rest) z h = kept rest (run_zcall call z) (run_zcall-IsIndex call z h)

  pub empty-IsIndex : IsIndex (empty_zset {Score = Score})
  unfolding lookup score_in
  empty-IsIndex = record { ranked = tt; distinct = tt; agrees = λ m. refl }

  -- Whatever is added and removed, from an empty sorted set on, its list ascends by score and
  -- member and has each member once, and the dict gives each member the score that the list gives.
  -- The order of the scores may identify scores that are not identical, as `-0.0 == 0.0` does.
  pub run_zcalls-IsIndex : (calls : List (ZCall Score)) → IsIndex (run_zcalls calls empty_zset)
  run_zcalls-IsIndex calls = kept calls empty_zset empty-IsIndex
