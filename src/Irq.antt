-- ===== src/Irq.antt =====
-- vre/irq and the injection of drivers/gic/gicv3.c: virtual interrupts.
pub mod Tests
pub mod Vgic
pub mod Inject
pub mod Router
pub mod Handler
