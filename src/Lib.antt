-- ===== src/Lib.antt =====
-- A verification of the backend of the booking platform (apps/backend): bookings and availability, coupons,
-- payments and refunds, loyalty and referrals, settlements, one-time codes and refresh tokens, businesses with
-- their staff, services and hours, the lock in Redis, and the guards before the routes.
--
-- The parts and their files:
--   Schema        the rows and enumerations of prisma/schema.prisma and packages/shared, and the unique keys
--   Store         the Prisma client as a parameter (`Client`): one `Table` of queries per delegate with the
--                 documented law of each query, and `$transaction`, which keeps the result of a callback
--                 that returned and undoes one that threw; a handler is an `Action`, which maps the
--                 database to a result or an exception and the database after it. `Store.Memory` is a
--                 client that keeps its tables in lists, on which the tests run
--   Availability  apps/backend/src/modules/booking/availability.service.ts: getFreeSlots, and the loop of
--                 generateSlots in Availability.Slots
--   Booking       apps/backend/src/modules/booking/booking.service.ts, a child module for each method or two;
--                 Booking.Safety is about double bookings
--   Coupon        apps/backend/src/modules/coupon/coupon.service.ts
--   Payment       apps/backend/src/modules/payment/payment.service.ts and modules/wallet/wallet.service.ts;
--                 Payment.MockGateway is common/payment-gateway/mock-payment.gateway.ts
--   Business, Branch, Staff, ServiceCatalog, WorkingHours   the services of those names; Business.Review has the
--                 decisions of an administrator
--   RedisLock     apps/backend/src/common/redis/redis-lock.service.ts, over a Redis that is a parameter (`Redis`);
--                 RedisLock.Steps has the processes that take and release locks, RedisLock.Memory a Redis for tests
--   Guards, Api   the guards in the order of apps/backend/src/app.module.ts, and the routes of the controllers
--                 with their decorators, each served behind the guards; Api.Auth has those of
--                 apps/backend/src/modules/auth/auth.controller.ts, with the cookie of the refresh token
--   Audit         apps/backend/src/common/audit/audit.service.ts
--   Loyalty, Referral, Settlement, Otp, Auth   the services of those names; Auth.Tokens also has the two
--                 revocations of modules/users/users.service.ts, whose other methods are in Users
--   System        the calls that reach the booking table and the wallets, from controllers, the gateway and
--                 the cron job; Payment.Ledger and System.Ledger relate the wallets to their lines
--   Tests         a small database, and each theorem with a condition or an input applied to it
--
-- How they interact: `hold` redeems a coupon in its transaction; `confirm`, a payment from the wallet and the
-- callback of the gateway award loyalty points and the referral's reward; `reschedule` asks the availability;
-- registration opens a wallet and a loyalty account. A call reads the clock and draws its identifiers from
-- `Env`; the `k` that many functions take counts the identifiers that were drawn before.
--
-- Choices: money is in hundredths of a toman and an instant in milliseconds, both natural numbers, so that
-- rounding to whole toman or hundredths is written out; identifiers, texts and phone numbers are numbers that
-- are compared only. `a - b` stops at 0; the code subtracts a discount from a price that bounds it, and an
-- amount from a balance that it has just compared. The net amount of a settlement and the lines of a
-- wallet's ledger are integers. `generateSlots` loops on fuel, one round more than the window has steps:
-- each round moves the cursor by one step, so the loop's own test ends it first (Availability.Slots.Ends has
-- the loop as a relation without fuel); a duration of 0 is excluded where that matters (the code would not stop).
--
-- Not modelled: concurrency inside a call (a call runs from its start to its end; what becomes of
-- its lock comes with `Env`; RedisLock treats the lock by itself), lists and included rows for display,
-- the validation of bodies by decorators, the text messages, hashing and tokens (parameters), and the frontend.
pub mod Prelude
pub mod Schema
pub mod Store
pub mod Audit
pub mod Business
pub mod Branch
pub mod Staff
pub mod ServiceCatalog
pub mod WorkingHours
pub mod RedisLock
pub mod Users
pub mod Guards
pub mod Api
pub mod Loyalty
pub mod Referral
pub mod Coupon
pub mod Availability
pub mod Booking
pub mod Payment
pub mod Otp
pub mod Auth
pub mod Settlement
pub mod System
pub mod Tests
