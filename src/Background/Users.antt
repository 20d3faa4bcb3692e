-- ===== src/Background/Users.antt =====
-- The lists of the users other than the current one.
use gitee_oh_base_location.Base.{
  ℕ, arith, if◌then◌else◌, int_eq, lookup, nat_eq, some, string_eq, true, update, ◌&&◌, ◌==◌, ◌≡◌,
  ==→eq, Bool-cases, inl, inr, false, lookup-update,
}
use gitee_oh_base_location.Background.{
  Background, list_of, get_requests_in_proxy, contains, on_delete_request_record, stop_locator,
  remove_all,
}
use gitee_oh_base_location.Background.Suspend.{contains-remove_all}

lists-on_delete_request_record :
    (b : Background) (h : ℕ)
    → b.feature_switch ≡ true
    → (on_delete_request_record b h).lists ≡ (
        if contains (list_of b b.requests_list) h
        then update b.requests_list (remove_all h (list_of b b.requests_list)) b.lists
        else b.lists)
unfolding on_delete_request_record get_requests_in_proxy stop_locator
lists-on_delete_request_record b h f = rw f (ground arith)

contains→some :
    (b : Background) (h list : ℕ)
    → contains (list_of b list) h ≡ true
    → lookup list b.lists ≡ some (list_of b list)
unfolding list_of
contains→some b h list e = ground (arith, e)

-- OnDeleteRequestRecord, with the feature on, takes the request from the list of the current user;
-- every other list is as it was.
pub list_of-on_delete_request_record :
    (b : Background) (h list : ℕ)
    → b.feature_switch ≡ true
    → list_of (on_delete_request_record b h) list ≡ (
        if b.requests_list == list && contains (list_of b list) h
        then remove_all h (list_of b list)
        else list_of b list)
unfolding list_of
list_of-on_delete_request_record b h list f =
    rw (lists-on_delete_request_record b h f) (elim (Bool-cases (b.requests_list == list)) [
      | inl e ↦ rw (==→eq b.requests_list list e) (
          ground (
            arith,
            lookup-update list list (remove_all h (list_of b list)) b.lists,
            contains→some b h list,
          ))
      | inr e ↦ ground (
        arith,
        e,
        lookup-update b.requests_list list (remove_all h (list_of b b.requests_list)) b.lists,
      )
    ])

requests_list-on_delete_request_record :
    (b : Background) (h : ℕ) → (on_delete_request_record b h).requests_list ≡ b.requests_list
unfolding on_delete_request_record stop_locator
requests_list-on_delete_request_record b h = ground arith

-- With the feature on, a request that its app has stopped is gone from the list of the current user.
pub on_delete_request_record_current :
    (b : Background) (h : ℕ)
    → b.feature_switch ≡ true
    → contains (get_requests_in_proxy (on_delete_request_record b h)) h ≡ false
unfolding get_requests_in_proxy list_of
on_delete_request_record_current b h f =
    let kept = list_of-on_delete_request_record b h b.requests_list f in
    let gone = contains-remove_all h h (list_of b b.requests_list) in
    rw (requests_list-on_delete_request_record b h, kept) (ground (arith, gone, nat_eq.beq_iff h h))
