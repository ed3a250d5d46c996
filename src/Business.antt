-- ===== src/Business.antt =====
-- apps/backend/src/modules/business/business.service.ts: how a business comes to be, who owns it,
-- its data, and the public search. The database's test that one text contains another is a
-- parameter; the empty text is 0. The review by an administrator is in Business/Review.antt.
pub mod Review
pub mod Owners
pub mod Owned
pub mod Visible
use booking_platform_claude.Prelude.{
  ℕ, ◌+◌, ◌-◌, ◌*◌, Bool, true, false, ◌&&◌, not, Option, none, some, List, ◌==◌, any, is_some,
  if◌then◌else◌,
}
use booking_platform_claude.Schema.{
  Business, BusinessStatus, is_approved, BusinessDocument, DocumentType, DocumentStatus,
  CancellationPolicy, Branch, Service, StaffMember, StaffRole,
}
use booking_platform_claude.Store.{Db, Client, Env}
use booking_platform_claude.Coupon.{or_old, or_old_option}
use booking_platform_claude.Store.Action.{
  Action, not_found, pure, gets, or_throw, throw_if, ◌>>=◌, ◌>>◌, stored, stored_row, transaction,
}

-- `CreateBusinessDto`
pub record CreateBusinessDto : Type 0 where
  pub name : ℕ
  pub category : ℕ
  pub description : Option ℕ
  pub logo_url : Option ℕ

-- `UpdateBusinessDto`
pub record UpdateBusinessDto : Type 0 where
  pub name : Option ℕ
  pub category : Option ℕ
  pub description : Option ℕ
  pub logo_url : Option ℕ
  pub legal_id : Option ℕ
  pub iban_number : Option ℕ

-- `SearchBusinessDto`
pub record SearchBusinessDto : Type 0 where
  pub query : Option ℕ
  pub category : Option ℕ
  pub city : Option ℕ
  pub page : Option ℕ
  pub page_size : Option ℕ

-- What `search` returns.
pub record SearchPage : Type 0 where
  pub items : List Business
  pub total : ℕ
  pub page : ℕ
  pub page_size : ℕ

-- What `findOnePublic` returns, less the reviews.
pub record PublicBusiness : Type 0 where
  pub business : Business
  pub branches : List Branch
  pub services : List Service

abbrev pub default_cancellation_policy : CancellationPolicy
default_cancellation_policy = record { free_cancel_hours = 24; fee_percent = 20 }

abbrev pub set_businesses : List Business → Db → Db
set_businesses t s = record s { businesses = t }

abbrev pub set_staff_members : List StaffMember → Db → Db
set_staff_members t s = record s { staff_members = t }

abbrev set_business_documents : List BusinessDocument → Db → Db
set_business_documents t s = record s { business_documents = t }

-- The columns that `data: dto` sets.
abbrev pub with_changes : UpdateBusinessDto → Business → Business
with_changes dto b = record b {
  name = or_old dto.name b.name;
  category = or_old dto.category b.category;
  description = or_old_option dto.description b.description;
  logo_url = or_old_option dto.logo_url b.logo_url;
  legal_id = or_old_option dto.legal_id b.legal_id;
  iban_number = or_old_option dto.iban_number b.iban_number;
}

-- A filter that is spread in only if the text is given and not empty.
abbrev pub if_given : Option ℕ → (ℕ → Bool) → Bool
if_given none p = true
if_given (some text) p = if text == 0 then true else p text

-- `(page - 1) * pageSize`
abbrev pub skipped : ℕ → ℕ → ℕ
skipped page page_size = (page - 1) * page_size

-- The `where` of `search`.
abbrev pub is_match : (ℕ → ℕ → Bool) → SearchBusinessDto → Db → Business → Bool
is_match contains dto s b =
    is_approved b.status
    && (if_given dto.query (λ q. contains b.name q)
        && (if_given dto.category (λ k. b.category == k)
            && if_given dto.city
                (λ q. any (λ r. r.business_id == b.id && contains r.address q) s.branches)))

module _ (c : Client) (env : Env) where
  -- The business's row, its defaults filled in.
  abbrev pub new_business : ℕ → CreateBusinessDto → Business
  new_business owner_id dto = record {
    id = env.uuid 0;
    owner_id = owner_id;
    name = dto.name;
    category = dto.category;
    description = dto.description;
    logo_url = dto.logo_url;
    status = BusinessStatus.pending_review;
    reject_reason = none;
    legal_id = none;
    iban_number = none;
    commission_percent = 1000;
    cancellation_policy = default_cancellation_policy;
    created_at = env.now;
  }

  abbrev pub new_owner : ℕ → ℕ → StaffMember
  new_owner owner_id business_id = record {
    id = env.uuid 1;
    user_id = owner_id;
    business_id = business_id;
    branch_id = none;
    role = StaffRole.owner;
    specialty = none;
    is_active = true;
  }

  unfoldable pub insert_business : Business → Action (Unit {0})
  insert_business b s = stored (c.business.create b s.businesses) set_businesses s

  unfoldable pub insert_staff_member : StaffMember → Action (Unit {0})
  insert_staff_member m s = stored (c.staff_member.create m s.staff_members) set_staff_members s

  -- The callback of the transaction in `create`.
  unfoldable pub insert_with_owner : ℕ → CreateBusinessDto → Action Business
  insert_with_owner owner_id dto = do
    let business = new_business owner_id dto
    insert_business business
    insert_staff_member (new_owner owner_id business.id)
    pure business

  -- `create`
  unfoldable pub create_business : ℕ → CreateBusinessDto → Action Business
  create_business owner_id dto = transaction c (insert_with_owner owner_id dto)

  -- `findMine`, as the memberships that are mapped to their businesses and roles
  unfoldable pub find_mine : ℕ → Action (List StaffMember)
  find_mine user_id =
      gets
        (λ s. c.staff_member.find_many (λ m. m.user_id == user_id && m.is_active) s.staff_members)

  abbrev pub business_of : ℕ → Db → Option Business
  business_of business_id s = c.business.find_first (λ b. b.id == business_id) s.businesses

  -- `assertExists`
  unfoldable pub assert_exists : ℕ → Action Business
  assert_exists business_id = do found ← gets (business_of business_id); or_throw found not_found

  -- `findOneForOwner`, the included rows left out
  unfoldable pub find_one_for_owner : ℕ → Action Business
  find_one_for_owner business_id = do
    found ← gets (business_of business_id)
    or_throw found not_found

  -- `findOnePublic`
  unfoldable pub find_one_public : ℕ → Action PublicBusiness
  find_one_public business_id = do
    found ← gets (business_of business_id)
    business ← or_throw found not_found
    throw_if (not (is_approved business.status)) not_found
    branches ← gets (λ s. c.branch.find_many (λ b. b.business_id == business_id) s.branches)
    services ←
        gets
          (λ s. c.service.find_many (λ v. v.business_id == business_id && v.is_active) s.services)
    pure (record { business = business; branches = branches; services = services })

  unfoldable pub set_business : ℕ → (Business → Business) → Action Business
  set_business business_id f s =
      stored_row (c.business.update (λ b. b.id == business_id) f s.businesses) set_businesses s

  -- `update`
  unfoldable pub update_business : ℕ → UpdateBusinessDto → Action Business
  update_business business_id dto = do
    _ ← assert_exists business_id
    set_business business_id (with_changes dto)

  -- `updateCancellationPolicy`
  unfoldable pub update_cancellation_policy : ℕ → CancellationPolicy → Action Business
  update_cancellation_policy business_id policy = do
    _ ← assert_exists business_id
    set_business business_id (λ b. record b { cancellation_policy = policy })

  unfoldable pub insert_document : BusinessDocument → Action (Unit {0})
  insert_document d s =
      stored (c.business_document.create d s.business_documents) set_business_documents s

  -- `addDocument`
  unfoldable pub add_document : ℕ → DocumentType → ℕ → Action BusinessDocument
  add_document business_id type file_url = do
    _ ← assert_exists business_id
    let document : BusinessDocument = record {
      id = env.uuid 0;
      business_id = business_id;
      type = type;
      file_url = file_url;
      status = DocumentStatus.pending;
    }
    insert_document document
    pure document

  -- `search`; the branch that each item includes is left out
  unfoldable pub search : (ℕ → ℕ → Bool) → SearchBusinessDto → Action SearchPage
  search contains dto = gets (λ s.
      let page = or_old dto.page 1 in
      let page_size = or_old dto.page_size 20 in
      record {
        items =
            c.business.find_page (λ b. b.created_at) (is_match contains dto s)
              (skipped page page_size) page_size s.businesses;
        total = c.business.count (is_match contains dto s) s.businesses;
        page = page;
        page_size = page_size;
      })
