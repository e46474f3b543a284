-- ===== src/Commands/Node/Status/Bounds.antt =====
-- How many rows the table of the peers can have.
use operations_calico_contai.Commands.Node.Status.Reads.{Reads}
