-- ===== src/Plugin/Host/Calls/Matching.antt =====
-- internal/plugin/external.go: which reply a call gets.
use streamcore_server.Base.{
  arith, false, leb, none, not, refl, some, text_eq_self, true, ◌&&◌, ◌∙◌, ◌∷◌, ◌≡◌,
}
use streamcore_server.Plugin.Host.Calls.{
  Reply, wrote, exited, waiting, leaving, Waiter, Table, replace, remove, unlist, new_table, Step,
  numbers, begins, delivers, ignores, takes, cancels, leaves, closes, tells, finishes, restarts,
  Reach, start, more,
}
use streamcore_server.Plugin.Host.Calls.Waiters.{
  reply_ok, answered, waiter_ok, all_waiters, all_matched, numbers_ok, waiters_more, matched_more,
  waiters_suc, below_suc, below_fresh, find-ok, replace-ok, answer-ok, remove-ok, unlist-ok,
  begin_ok, has-replace, has-remove, has-unlist, has-find, has_none, numbers_same, numbers_next,
  numbers_answer, numbers_drop, numbers_found, Kept,
}

-- A waiter that takes its reply had none before.
taken_ok :
    (t : Table) (w : Waiter) (r : Reply)
    → waiter_ok t.written t.returned t.next_id w ≡ true
    → w.phase ≡ waiting
    → w.buffer ≡ some r
    → (reply_ok w.id r t.written ≡ true) × (answered w.id t.returned ≡ false)
unfolding waiter_ok
taken_ok t w r o p b =
    let o' : (leb w.id t.next_id && reply_ok w.id r t.written && not (answered w.id t.returned))
        ≡ true =
      rw (p, b) at o in
    (ground arith, ground arith)

Step-Kept : (t t' : Table) → Step t t' → Kept t → Kept t'
unfolding waiter_ok
Step-Kept t _ (numbers _) i =
    let a = below_fresh t.next_id t.returned i.below in
    let b = has_none t.written t.returned t.next_id t.waiters i.waiters_ok in
    record {
      numbers_kept = numbers_next t.returned t.next_id t.waiters t.numbered i.numbers_kept a b;
      waiters_ok = waiters_suc t.written t.returned t.next_id t.waiters i.waiters_ok;
      matched = i.matched;
      below = below_suc t.next_id t.returned i.below;
    }
Step-Kept t _ (begins _ n f e) i = record {
  numbers_kept = numbers_drop t.returned t.next_id n t.waiters t.numbered i.numbers_kept;
  waiters_ok =
      begin_ok t.written t.returned t.next_id n t.waiters i.waiters_ok
        (numbers_found t.returned t.next_id n t.waiters t.numbered i.numbers_kept e);
  matched = i.matched;
  below = i.below;
}
Step-Kept t _ (delivers _ w text r f l b) i =
    let a = waiters_more w.id text t.written t.returned t.next_id t.waiters i.waiters_ok in
    let o = find-ok t.written t.returned t.next_id w.id t.waiters w i.waiters_ok f in
    record {
      numbers_kept =
          numbers_same t.returned t.next_id t.waiters
            (replace (record w { buffer = some (wrote text) }) t.waiters) t.numbered
            (λ m h. has-replace m (record w { buffer = some (wrote text) }) t.waiters ∙ h)
            i.numbers_kept;
      waiters_ok =
          replace-ok ((w.id, text) ∷ t.written) t.returned t.next_id
            (record w { buffer = some (wrote text) }) t.waiters
            (ground (arith, o, text_eq_self text)) a;
      matched = matched_more w.id text t.written t.returned i.matched;
      below = i.below;
    }
Step-Kept t _ (ignores _ n text r u) i = record {
  numbers_kept = i.numbers_kept;
  waiters_ok = waiters_more n text t.written t.returned t.next_id t.waiters i.waiters_ok;
  matched = matched_more n text t.written t.returned i.matched;
  below = i.below;
}
Step-Kept t _ (takes _ w r f p b) i =
    let o = find-ok t.written t.returned t.next_id w.id t.waiters w i.waiters_ok f in
    let o' = taken_ok t w r o p b in
    record {
      numbers_kept =
          numbers_answer t.returned t.next_id w.id r
            (replace (record w { buffer = none; phase = leaving }) t.waiters) t.numbered
            (has-replace w.id (record w { buffer = none; phase = leaving }) t.waiters
              ∙ has-find w.id t.waiters w f)
            (numbers_same t.returned t.next_id t.waiters
              (replace (record w { buffer = none; phase = leaving }) t.waiters) t.numbered
              (λ m h. has-replace m (record w { buffer = none; phase = leaving }) t.waiters ∙ h)
              i.numbers_kept);
      waiters_ok =
          answer-ok t.written t.returned t.next_id (record w { buffer = none; phase = leaving }) r
            t.waiters (ground (arith, o)) i.waiters_ok;
      matched = let m = i.matched in ground (arith, o', m);
      below = let m = i.below in ground (arith, o, m);
    }
Step-Kept t _ (cancels _ w f p) i =
    let o = find-ok t.written t.returned t.next_id w.id t.waiters w i.waiters_ok f in
    record {
      numbers_kept =
          numbers_same t.returned t.next_id t.waiters
            (replace (record w { phase = leaving }) t.waiters) t.numbered
            (λ m h. has-replace m (record w { phase = leaving }) t.waiters ∙ h) i.numbers_kept;
      waiters_ok =
          replace-ok t.written t.returned t.next_id (record w { phase = leaving }) t.waiters
            (ground (arith, o)) i.waiters_ok;
      matched = i.matched;
      below = i.below;
    }
Step-Kept t _ (leaves _ w f g p) i = record {
  numbers_kept =
      numbers_same t.returned t.next_id t.waiters (remove w.id t.waiters) t.numbered
        (λ m h. has-remove m w.id t.waiters h) i.numbers_kept;
  waiters_ok = remove-ok t.written t.returned t.next_id w.id t.waiters i.waiters_ok;
  matched = i.matched;
  below = i.below;
}
Step-Kept t _ (closes _ r) i = record {
  numbers_kept = i.numbers_kept;
  waiters_ok = i.waiters_ok;
  matched = i.matched;
  below = i.below;
}
Step-Kept t _ (tells _ w ns r f b) i =
    let o = find-ok t.written t.returned t.next_id w.id t.waiters w i.waiters_ok f in
    record {
      numbers_kept =
          numbers_same t.returned t.next_id t.waiters
            (replace (record w { buffer = some exited }) t.waiters) t.numbered
            (λ m h. has-replace m (record w { buffer = some exited }) t.waiters ∙ h) i.numbers_kept;
      waiters_ok =
          replace-ok t.written t.returned t.next_id (record w { buffer = some exited }) t.waiters
            (ground (arith, o)) i.waiters_ok;
      matched = i.matched;
      below = i.below;
    }
Step-Kept t _ (finishes _ r) i = record {
  numbers_kept =
      numbers_same t.returned t.next_id t.waiters (unlist t.waiters) t.numbered
        (λ m h. has-unlist m t.waiters ∙ h) i.numbers_kept;
  waiters_ok = unlist-ok t.written t.returned t.next_id t.waiters i.waiters_ok;
  matched = i.matched;
  below = i.below;
}
Step-Kept t _ (restarts _ r) i = record {
  numbers_kept = i.numbers_kept;
  waiters_ok = i.waiters_ok;
  matched = i.matched;
  below = i.below;
}

Reach-Kept : {t : Table} → Reach t → Kept t
unfolding new_table all_waiters numbers_ok
Reach-Kept start = record { numbers_kept = refl; waiters_ok = refl; matched = refl; below = refl }
Reach-Kept (more t t' r s) = Step-Kept t t' s (Reach-Kept r)

-- However calls begin, end and are cancelled, and in whatever order the process answers and exits, a call that
-- got a reply got one that the process wrote for its number, or the notice that the process is gone, and no
-- call got two.
pub replies_match : (t : Table) → Reach t → all_matched t.written t.returned ≡ true
replies_match t r = (Reach-Kept r).matched
