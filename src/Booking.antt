-- ===== src/Booking.antt =====
-- apps/backend/src/modules/booking/booking.service.ts: the life of a booking, from the hold on a slot to
-- its end. Each method of the service is a function here or in a child of this module.
pub mod Status
pub mod Types
pub mod Slot
pub mod Hold
pub mod Confirm
pub mod Cancel
pub mod Reschedule
pub mod Recurring
pub mod Safety
pub mod Atomic
pub mod Asked
pub mod Context
pub mod Thrown
pub mod Created
pub mod Expiry
pub mod Fee
pub mod Series
